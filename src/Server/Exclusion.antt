-- ===== src/Server/Exclusion.antt =====
-- server-side/server.c: what the semaphore gives.
use yacdb.Common.{
  ℕ, ◌≡◌, refl, ap, sym, ◌∙◌, Bool, true, false, Option, none, some, Bool-cases, inl, inr, [], ◌∷◌,
  ◌++◌, Bytes, append-All, if◌then◌else◌, arith, subst,
}
use mathlib.Core.Option.{some-injective}
use yacdb.Common.State.{Routine}
use yacdb.Server.{
  starting, Main, accepting, creating, counting, Server, Event, interrupt, accept, create_thread,
  count_thread, select_socket, read_socket, open_pipe, close_file, read_pipe, advance, is_open, Log,
  serving, accept_client, start_thread, add_thread, respond, step, Steps, without_log, here, next,
}
use yacdb.Server.Inside.{inside_count-append, IsCurrent}
use yacdb.Server.Kept.{
  begin, Inv, if_free, selected-Inv, received-Inv, opened-Inv, closed_file-Inv, piped-Inv,
  process-Inv,
}

module _ {D : Type 0} (pipe_size : ℕ) (db_handle : Bytes → Routine D Bytes) (d₀ : D) where
  accept_client-Inv :
      (log : Log) (s : Server D) (at : Main) (n : Option ℕ) (u : Server D)
      → Inv db_handle d₀ log s
      → accept_client at n s ≡ some u
      → Inv db_handle d₀ log u
  unfolding accept_client
  accept_client-Inv log s accepting (some n) u h q =
      if_free db_handle d₀ (Inv db_handle d₀ log) (is_open n s.descriptors) _ u q h
  accept_client-Inv log s accepting none u h q =
      subst (Inv db_handle d₀ log) (some-injective _ _ q) h
  accept_client-Inv log s _ n u h q = cc

  start_thread-Inv :
      (log : Log) (s : Server D) (at : Main) (ok : Bool) (u : Server D)
      → Inv db_handle d₀ log s
      → start_thread at ok s ≡ some u
      → Inv db_handle d₀ log u
  unfolding start_thread
  start_thread-Inv log s creating true u h q =
      subst (Inv db_handle d₀ log) (some-injective _ _ q) (record {
        exclusive = omega (arith, h.exclusive, inside_count-append s.threads starting);
        served = h.served;
        current =
            append-All (IsCurrent s.database log) s.threads (starting ∷ []) h.current (tt, tt);
      })
  start_thread-Inv log s creating false u h q =
      subst (Inv db_handle d₀ log) (some-injective _ _ q) h
  start_thread-Inv log s _ ok u h q = cc

  add_thread-Inv :
      (log : Log) (s : Server D) (at : Main) (u : Server D)
      → Inv db_handle d₀ log s
      → add_thread at s ≡ some u
      → Inv db_handle d₀ log u
  unfolding add_thread
  add_thread-Inv log s counting u h q = subst (Inv db_handle d₀ log) (some-injective _ _ q) h
  add_thread-Inv log s _ u h q = cc

  without_log-Inv :
      (log : Log) (o : Option (Server D)) (u : Server D) (new : Log)
      → ((v : Server D) → o ≡ some v → Inv db_handle d₀ log v)
      → without_log o ≡ some (u, new)
      → Inv db_handle d₀ (new ++ log) u
  without_log-Inv log none u new h q = cc
  without_log-Inv log (some v) u new h q =
      subst (λ x. Inv db_handle d₀ (x.1 ++ log) x.0) (some-injective _ _ q) (h v refl)

  respond-Inv :
      (log : Log) (e : Event) (s u : Server D) (new : Log)
      → Inv db_handle d₀ log s
      → respond pipe_size db_handle e s ≡ some (u, new)
      → Inv db_handle d₀ (new ++ log) u
  unfolding respond
  respond-Inv log interrupt s u new h q =
      subst (λ x. Inv db_handle d₀ (x.1 ++ log) x.0) (some-injective _ _ q) h
  respond-Inv log (accept n) s u new h q =
      without_log-Inv log _ u new (λ v. accept_client-Inv log s s.main n v h) q
  respond-Inv log (create_thread ok) s u new h q =
      without_log-Inv log _ u new (λ v. start_thread-Inv log s s.main ok v h) q
  respond-Inv log count_thread s u new h q =
      without_log-Inv log _ u new (λ v. add_thread-Inv log s s.main v h) q
  respond-Inv log (select_socket i ready) s u new h q =
      without_log-Inv log _ u new (λ v. selected-Inv db_handle d₀ log s _ i ready v h refl) q
  respond-Inv log (read_socket i bytes) s u new h q =
      without_log-Inv log _ u new (λ v. received-Inv db_handle d₀ log s _ i bytes v h refl) q
  respond-Inv log (open_pipe i fds) s u new h q =
      without_log-Inv log _ u new (λ v. opened-Inv db_handle d₀ log s _ i fds v h refl) q
  respond-Inv log (close_file i written) s u new h q =
      without_log-Inv log _ u new
        (λ v. closed_file-Inv db_handle d₀ pipe_size log s _ i written v h refl) q
  respond-Inv log (read_pipe i bytes) s u new h q =
      without_log-Inv log _ u new (λ v. piped-Inv db_handle d₀ log s _ i bytes v h refl) q
  respond-Inv log (advance i) s u new h q =
      process-Inv db_handle d₀ pipe_size log s _ i u new h refl q

  -- The invariant of the server: at every moment that steps reach from its start, the semaphore and
  -- the threads inside it make 1 together, the database is what the handled commands make of the
  -- first database one after the other, a thread in `db_handle` works on that database, and what a
  -- thread behind it writes to its pipe is the answer of a handled command.
  pub serving-Consistent :
      (log : Log) (s : Server D)
      → Steps pipe_size db_handle (serving d₀) log s
      → Inv db_handle d₀ log s
  unfolding step serving
  serving-Consistent log s here = record { exclusive = omega arith; served = begin; current = tt }
  serving-Consistent log s (next {log = before} {t = t} r e q) = elim (Bool-cases t.running) [
    | inl on ↦
        respond-Inv before e t s _ (serving-Consistent before t r)
          (sym (ap (λ b. if b then respond pipe_size db_handle e t else none) on) ∙ q)
    | inr off ↦
        let stopped = sym (ap (λ b. if b then respond pipe_size db_handle e t else none) off) ∙ q in
        cc
  ]
