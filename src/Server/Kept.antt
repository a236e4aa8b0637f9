-- ===== src/Server/Kept.antt =====
-- server-side/server.c: what holds between two steps, and that each thread keeps it.
use yacdb.Common.{
  ℕ, ◌+◌, ◌≡◌, refl, Bool, true, false, Option, none, some, Bool-cases, inl, inr, List, [], ◌∷◌,
  ◌++◌, Bytes, All, get_elem?, set, ltb, ltb→lt, length, leb, ◌==◌, ◌||◌, if◌then◌else◌, arith,
  subst,
}
use mathlib.Core.Option.{some-injective}
use yacdb.Common.Text.{c_str}
use yacdb.Common.State.{Outcome, done, error, crash, Routine}
use yacdb.Server.{
  Thread, starting, selecting, reading, waiting, piping, handling, closing, releasing, answering,
  replying, closing_out, closing_in, ended, Server, Log, buffered, line_size, reply_size, is_open,
  exit_thread, receive, selected, received, sem_wait, take_semaphore, line_read, opened,
  closed_file, piped, handled, process,
}
use yacdb.Server.Inside.{
  inside, inside_count, inside_count-set, IsCurrent, All-set, All-get, sole_changed,
}

module _ {D : Type 0} (db_handle : Bytes → Routine D Bytes) (d₀ : D) where
  -- The commands of the log, handled one after the other, give the answers of the log and the
  -- database.
  pub data Served : Log → D → Type 0 where
    begin : Served [] d₀
    serve :
        {log : Log} {d d' : D} {line answer : Bytes}
        → Served log d
        → db_handle line d ≡ done answer d'
        → Served ((line, answer) ∷ log) d'

  -- What holds between two steps, of the semaphore, the threads and the database.
  pub record Consistent (log : Log) (count : ℕ) (ts : List (Thread D)) (d : D) : Type 0 where
    pub exclusive : count + inside_count ts ≡ 1
    pub served : Served log d
    pub current : All (IsCurrent d log) ts

  abbrev pub Inv : Log → Server D → Type 0
  Inv log s = Consistent log s.semaphore s.threads s.database

  -- A thread moves and neither takes nor gives back the semaphore.
  moved-Inv :
      (log : Log) (count : ℕ) (ts : List (Thread D)) (d : D) (i : ℕ) (t u : Thread D)
      → Consistent log count ts d
      → get_elem? ts i ≡ some t
      → inside u ≡ inside t
      → IsCurrent d log u
      → Consistent log count (set ts i u) d
  moved-Inv log count ts d i t u h e same k = record {
    exclusive = omega (arith, h.exclusive, inside_count-set ts i t u e, same);
    served = h.served;
    current = All-set (IsCurrent d log) ts i u h.current k;
  }

  pub selected-Inv :
      (log : Log) (s : Server D) (found : Option (Thread D)) (i : ℕ) (ready : Bool) (u : Server D)
      → Inv log s
      → get_elem? s.threads i ≡ found
      → selected found i ready s ≡ some u
      → Inv log u
  unfolding selected exit_thread
  selected-Inv log s (some (selecting n)) i true u h e q =
      subst (Inv log) (some-injective _ _ q)
        (moved-Inv log _ _ _ i (selecting n) (reading n) h e refl tt)
  selected-Inv log s (some (selecting n)) i false u h e q =
      subst (Inv log) (some-injective _ _ q) (moved-Inv log _ _ _ i (selecting n) ended h e refl tt)
  selected-Inv log s _ i ready u h e q = cc

  line_read-Inv :
      (log : Log) (s : Server D) (i n : ℕ) (line : Bytes)
      → Inv log s
      → get_elem? s.threads i ≡ some (reading n)
      → Inv log (line_read s i n line)
  unfolding line_read exit_thread
  line_read-Inv log s i n [] h e = moved-Inv log _ _ _ i (reading n) ended h e refl tt
  line_read-Inv log s i n (b ∷ line) h e = elim (Bool-cases (length (b ∷ line) == line_size)) [
    | inl long ↦ rw long h
    | inr fits ↦ rw fits (moved-Inv log _ _ _ i (reading n) (waiting n (b ∷ line)) h e refl tt)
  ]

  receive-Inv :
      (log : Log) (s : Server D) (i n : ℕ) (bytes : Option Bytes)
      → Inv log s
      → get_elem? s.threads i ≡ some (reading n)
      → Inv log (receive s i n bytes)
  unfolding receive exit_thread
  receive-Inv log s i n none h e = moved-Inv log _ _ _ i (reading n) ended h e refl tt
  receive-Inv log s i n (some bytes) h e =
      line_read-Inv log s i n (c_str (buffered line_size bytes)) h e

  pub received-Inv :
      (log : Log) (s : Server D) (found : Option (Thread D)) (i : ℕ) (bytes : Option Bytes)
      (u : Server D)
      → Inv log s
      → get_elem? s.threads i ≡ found
      → received found i bytes s ≡ some u
      → Inv log u
  unfolding received
  received-Inv log s (some (reading n)) i bytes u h e q =
      subst (Inv log) (some-injective _ _ q) (receive-Inv log s i n bytes h e)
  received-Inv log s _ i bytes u h e q = cc

  take_semaphore-Inv :
      (log : Log) (s : Server D) (i n : ℕ) (line : Bytes) (free : Bool) (u : Server D) (new : Log)
      → Inv log s
      → get_elem? s.threads i ≡ some (waiting n line)
      → ltb 0 s.semaphore ≡ free
      → take_semaphore free s i n line ≡ some (u, new)
      → Inv (new ++ log) u
  unfolding take_semaphore
  take_semaphore-Inv log s i n line false u new h e f q = cc
  take_semaphore-Inv log s i n line true u new h e f q =
      let t = piping n line in
      let count = inside_count-set s.threads i (waiting n line) t e in
      subst (λ x. Inv (x.1 ++ log) x.0) (some-injective _ _ q)
        (record {
          exclusive = omega (arith, h.exclusive, ltb→lt 0 s.semaphore f, count);
          served = h.served;
          current = All-set (IsCurrent s.database log) s.threads i t h.current tt;
        })

  pub if_free :
      (P : Server D → Type 0) (busy : Bool) (v u : Server D)
      → (if busy then none else some v) ≡ some u
      → P v
      → P u
  if_free P true v u q p = cc
  if_free P false v u q p = subst P (some-injective _ _ q) p

  if_fits :
      (P : Server D → Type 0) (fits : Bool) (v u : Server D)
      → (if fits then some v else none) ≡ some u
      → P v
      → P u
  if_fits P true v u q p = subst P (some-injective _ _ q) p
  if_fits P false v u q p = cc

  pub opened-Inv :
      (log : Log) (s : Server D) (found : Option (Thread D)) (i : ℕ) (fds : Option (ℕ × ℕ))
      (u : Server D)
      → Inv log s
      → get_elem? s.threads i ≡ found
      → opened found i fds s ≡ some u
      → Inv log u
  unfolding opened
  opened-Inv log s (some (piping n line)) i (some (r, w)) u h e q =
      if_free (Inv log) (is_open r s.descriptors || is_open w (r ∷ s.descriptors)) _ u q
        (moved-Inv log _ _ _ i (piping n line) (handling n line s.database r w) h e refl refl)
  opened-Inv log s (some (piping n line)) i none u h e q = subst (Inv log) (some-injective _ _ q) h
  opened-Inv log s _ i fds u h e q = cc

  pub closed_file-Inv :
      (pipe_size : ℕ) (log : Log) (s : Server D) (found : Option (Thread D)) (i : ℕ)
      (written : Bool) (u : Server D)
      → Inv log s
      → get_elem? s.threads i ≡ found
      → closed_file pipe_size found i written s ≡ some u
      → Inv log u
  unfolding closed_file
  closed_file-Inv pipe_size log s (some (closing n answer r w)) i true u h e q =
      if_fits (Inv log) (leb (length answer) pipe_size) _ u q
        (moved-Inv log _ _ _ i (closing n answer r w) (releasing n r w) h e refl tt)
  closed_file-Inv pipe_size log s (some (closing n answer r w)) i false u h e q =
      subst (Inv log) (some-injective _ _ q) h
  closed_file-Inv pipe_size log s _ i written u h e q = cc

  pub piped-Inv :
      (log : Log) (s : Server D) (found : Option (Thread D)) (i : ℕ) (bytes : Bytes) (u : Server D)
      → Inv log s
      → get_elem? s.threads i ≡ found
      → piped found i bytes s ≡ some u
      → Inv log u
  unfolding piped
  piped-Inv log s (some (answering n r w)) i bytes u h e q =
      let t = replying n (buffered reply_size bytes) r w in
      subst (Inv log) (some-injective _ _ q) (moved-Inv log _ _ _ i (answering n r w) t h e refl tt)
  piped-Inv log s _ i bytes u h e q = cc

  handled-Inv :
      (log : Log) (s : Server D) (i n : ℕ) (line : Bytes) (seen : D) (r w : ℕ)
      (out : Outcome D Bytes) (u : Server D) (new : Log)
      → Inv log s
      → get_elem? s.threads i ≡ some (handling n line seen r w)
      → db_handle line seen ≡ out
      → handled s i n line r w out ≡ some (u, new)
      → Inv (new ++ log) u
  unfolding handled
  handled-Inv log s i n line seen r w (done answer d) u new h e o q =
      let same = All-get (IsCurrent s.database log) s.threads i _ h.current e in
      let count = inside_count-set s.threads i _ (closing n answer r w) e in
      subst (λ x. Inv (x.1 ++ log) x.0) (some-injective _ _ q)
        (record {
          exclusive = omega (arith, h.exclusive, count);
          served = serve h.served (subst (λ x. db_handle line x ≡ done answer d) same o);
          current =
              sole_changed s.database d log (line, answer) s.threads i (handling n line seen r w)
                (closing n answer r w) (omega (arith, h.exclusive)) e refl (inl refl) h.current;
        })
  handled-Inv log s i n line seen r w (error d) u new h e o q =
      subst (λ x. Inv (x.1 ++ log) x.0) (some-injective _ _ q) h
  handled-Inv log s i n line seen r w crash u new h e o q =
      subst (λ x. Inv (x.1 ++ log) x.0) (some-injective _ _ q) h

  pub process-Inv :
      (pipe_size : ℕ) (log : Log) (s : Server D) (found : Option (Thread D)) (i : ℕ) (u : Server D)
      (new : Log)
      → Inv log s
      → get_elem? s.threads i ≡ found
      → process pipe_size db_handle found i s ≡ some (u, new)
      → Inv (new ++ log) u
  unfolding process sem_wait
  process-Inv pipe_size log s (some starting) i u new h e q =
      subst (λ x. Inv (x.1 ++ log) x.0) (some-injective _ _ q)
        (moved-Inv log _ _ _ i starting (selecting s.new_socket) h e refl tt)
  process-Inv pipe_size log s (some (waiting n line)) i u new h e q =
      take_semaphore-Inv log s i n line _ u new h e refl q
  process-Inv pipe_size log s (some (handling n line d r w)) i u new h e q =
      handled-Inv log s i n line d r w (db_handle line d) u new h e refl q
  process-Inv pipe_size log s (some (releasing n r w)) i u new h e q =
      let count = inside_count-set s.threads i _ (answering n r w) e in
      subst (λ x. Inv (x.1 ++ log) x.0) (some-injective _ _ q)
        (record {
          exclusive = omega (arith, h.exclusive, count);
          served = h.served;
          current = All-set (IsCurrent s.database log) s.threads i (answering n r w) h.current tt;
        })
  process-Inv pipe_size log s (some (replying n answer r w)) i u new h e q =
      subst (λ x. Inv (x.1 ++ log) x.0) (some-injective _ _ q)
        (moved-Inv log _ _ _ i _ (closing_out n r w) h e refl tt)
  process-Inv pipe_size log s (some (closing_out n r w)) i u new h e q =
      subst (λ x. Inv (x.1 ++ log) x.0) (some-injective _ _ q)
        (moved-Inv log _ _ _ i _ (closing_in n w) h e refl tt)
  process-Inv pipe_size log s (some (closing_in n w)) i u new h e q =
      subst (λ x. Inv (x.1 ++ log) x.0) (some-injective _ _ q)
        (moved-Inv log _ _ _ i _ (selecting n) h e refl tt)
  process-Inv pipe_size log s _ i u new h e q = cc
