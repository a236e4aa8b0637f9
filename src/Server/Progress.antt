-- ===== src/Server/Progress.antt =====
-- server-side/server.c: a client that waits for the semaphore can take it.
use yacdb.Common.{ℕ, suc, ◌+◌, ◌<◌, ◌≡◌, ◌⊎◌, true, some, List, [], ◌∷◌, Bytes, get_elem?, length}
use yacdb.Common.State.{Outcome, done, Routine}
use yacdb.Server.{Thread, waiting, piping, handling, closing, Server, Event, Log, step, Steps}

-- A number above all open ones is free.
abbrev above : List ℕ → ℕ
above [] = 0
above (fd ∷ fds) = suc (fd + above fds)

module _ {D : Type 0} (pipe_size : ℕ) (db_handle : Bytes → Routine D Bytes) where
  -- `db_handle` does not return, or with an answer that the pipe does not hold.
  abbrev pub IsBlocking : Outcome D Bytes → Type 0
  IsBlocking (done answer d) = pipe_size < length answer
  IsBlocking _ = Unit

  -- A thread that never gives the semaphore back.
  abbrev pub IsStuck : D → Thread D → Type 0
  IsStuck d (piping n line) = IsBlocking (db_handle line d)
  IsStuck d (handling n line seen r w) = IsBlocking (db_handle line seen)
  IsStuck d (closing n answer r w) = pipe_size < length answer
  IsStuck d _ = ⊥

  -- A step that the thread `i` makes.
  abbrev Stepped : Server D → ℕ → Thread D → Server D → Type 0
  Stepped s i t u = (e : Event) × (new : Log) × (step pipe_size db_handle e s ≡ some (u, new))

  -- The semaphore is free at some later moment, and the thread waits still.
  abbrev CanTake : Server D → Log → Server D → ℕ → ℕ → Bytes → Type 0
  CanTake s₀ log u i n line =
      Steps pipe_size db_handle s₀ log u
      × (u.running ≡ true)
      × (0 < u.semaphore)
      × (get_elem? u.threads i ≡ some (waiting n line))

  abbrev Frees : Server D → Server D → ℕ → ℕ → Bytes → Thread D → Type 0
  Frees s₀ s i n line t =
      ((log : Log) × (u : Server D) × CanTake s₀ log u i n line) ⊎ IsStuck s.database t

  -- What holds when the thread inside moves on.
  module _ (s₀ : Server D) (i n : ℕ) (line : Bytes) where
    abbrev Held : Log → Server D → ℕ → Thread D → Type 0
    Held log s j t =
        Steps pipe_size db_handle s₀ log s
        × (s.running ≡ true)
        × (get_elem? s.threads i ≡ some (waiting n line))
        × (get_elem? s.threads j ≡ some t)
