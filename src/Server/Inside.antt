-- ===== src/Server/Inside.antt =====
-- server-side/server.c: the threads that have taken the semaphore, and those that work on the database as
-- it is.
use yacdb.Common.{
  ℕ, zero, suc, ◌+◌, ◌≤◌, ◌≡◌, some, List, [], ◌∷◌, ◌++◌, Bytes, All, get_elem?, set, arith, ◌⊎◌,
  subst,
}
use yacdb.Server.{
  Thread, starting, selecting, reading, waiting, piping, handling, closing, releasing, answering,
  replying, closing_out, closing_in, ended, Log,
}

module _ {D : Type 0} where
  -- 1 for a thread that has taken the semaphore and not given it back.
  abbrev pub inside : Thread D → ℕ
  inside (piping n line) = 1
  inside (handling n line d r w) = 1
  inside (closing n answer r w) = 1
  inside (releasing n r w) = 1
  inside _ = 0

  abbrev pub inside_count : List (Thread D) → ℕ
  inside_count [] = 0
  inside_count (t ∷ ts) = inside t + inside_count ts

  pub inside_count-set :
      (ts : List (Thread D)) (i : ℕ) (t u : Thread D)
      → get_elem? ts i ≡ some t
      → inside_count (set ts i u) + inside t ≡ inside_count ts + inside u
  inside_count-set [] i t u h = cc
  inside_count-set (x ∷ ts) zero t u h = let e : x ≡ t = cc in rw e (omega arith)
  inside_count-set (x ∷ ts) (suc i) t u h = omega (arith, inside_count-set ts i t u h)

  pub inside_count-append :
      (ts : List (Thread D)) (t : Thread D)
      → inside_count (ts ++ t ∷ []) ≡ inside_count ts + inside t
  inside_count-append [] t = omega arith
  inside_count-append (x ∷ ts) t = omega (arith, inside_count-append ts t)

-- The answer is that of a command of the log.
abbrev pub IsAnswer : Bytes → Log → Type 0
IsAnswer answer [] = ⊥
IsAnswer answer (x ∷ log) = (answer ≡ x.1) ⊎ IsAnswer answer log

module _ {D : Type 0} where
  -- A thread in `db_handle` works on the database as it is; one behind it writes an answer.
  abbrev pub IsCurrent : D → Log → Thread D → Type 0
  IsCurrent d log (handling n line seen r w) = seen ≡ d
  IsCurrent d log (closing n answer r w) = IsAnswer answer log
  IsCurrent d log _ = Unit

  pub All-set :
      (P : Thread D → Type 0) (ts : List (Thread D)) (i : ℕ) (u : Thread D)
      → All P ts
      → P u
      → All P (set ts i u)
  All-set P [] i u h p = h
  All-set P (x ∷ ts) zero u h p = (p, h.1)
  All-set P (x ∷ ts) (suc i) u h p = (h.0, All-set P ts i u h.1 p)

  pub All-get :
      (P : Thread D → Type 0) (ts : List (Thread D)) (i : ℕ) (t : Thread D)
      → All P ts
      → get_elem? ts i ≡ some t
      → P t
  All-get P [] i t h e = cc
  All-get P (x ∷ ts) zero t h e = let q : x ≡ t = cc in subst P q h.0
  All-get P (x ∷ ts) (suc i) t h e = All-get P ts i t h.1 e

  -- A thread outside stays current whatever a thread inside does.
  pub outside_unmoved :
      (d d' : D) (log : Log) (x : Bytes × Bytes) (t : Thread D)
      → inside t ≡ 0
      → IsCurrent d log t
      → IsCurrent d' (x ∷ log) t
  outside_unmoved d d' log x (piping n line) o h = tt
  outside_unmoved d d' log x (handling n line seen r w) o h = absurd (omega (arith, o))
  outside_unmoved d d' log x (closing n answer r w) o h = absurd (omega (arith, o))
  outside_unmoved d d' log x (releasing n r w) o h = tt
  outside_unmoved d d' log x (answering n r w) o h = tt
  outside_unmoved d d' log x (replying n answer r w) o h = tt
  outside_unmoved d d' log x (closing_out n r w) o h = tt
  outside_unmoved d d' log x (closing_in n w) o h = tt
  outside_unmoved d d' log x starting o h = tt
  outside_unmoved d d' log x (selecting n) o h = tt
  outside_unmoved d d' log x (reading n) o h = tt
  outside_unmoved d d' log x (waiting n line) o h = tt
  outside_unmoved d d' log x ended o h = tt

  pub all_outside :
      (d d' : D) (log : Log) (x : Bytes × Bytes) (ts : List (Thread D))
      → inside_count ts ≡ 0
      → All (IsCurrent d log) ts
      → All (IsCurrent d' (x ∷ log)) ts
  all_outside d d' log x [] o h = tt
  all_outside d d' log x (t ∷ ts) o h =
      (outside_unmoved d d' log x t (omega arith) h.0, all_outside d d' log x ts (omega arith) h.1)

  -- The only thread inside changes the database.
  pub sole_changed :
      (d d' : D) (log : Log) (x : Bytes × Bytes) (ts : List (Thread D)) (i : ℕ) (t u : Thread D)
      → inside_count ts ≤ 1
      → get_elem? ts i ≡ some t
      → inside t ≡ 1
      → IsCurrent d' (x ∷ log) u
      → All (IsCurrent d log) ts
      → All (IsCurrent d' (x ∷ log)) (set ts i u)
  sole_changed d d' log x [] i t u c e one k h = cc
  sole_changed d d' log x (y ∷ ts) zero t u c e one k h =
      let q : inside y ≡ 1 = cc in (k, all_outside d d' log x ts (omega (arith, q)) h.1)
  sole_changed d d' log x (y ∷ ts) (suc i) t u c e one k h =
      let held = some_inside ts i t e in
      (
        outside_unmoved d d' log x y (omega (arith, held)) h.0,
        sole_changed d d' log x ts i t u (omega arith) e one k h.1,
      )
    where
      some_inside :
          (ts : List (Thread D)) (i : ℕ) (t : Thread D)
          → get_elem? ts i ≡ some t
          → inside t ≤ inside_count ts
      some_inside [] i t e = cc
      some_inside (y ∷ ts) zero t e = let q : y ≡ t = cc in rw q (omega arith)
      some_inside (y ∷ ts) (suc i) t e = omega (arith, some_inside ts i t e)
