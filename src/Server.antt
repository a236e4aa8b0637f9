-- ===== src/Server.antt =====
-- server-side/server.c: the thread that accepts clients, a thread for each client, and the semaphore
-- around the database. `db_handle` is a parameter, and so is the state that it works on. What a call of
-- the operating system returns is part of an event.
pub mod Inside
pub mod Kept
pub mod Exclusion
pub mod Progress
use yacdb.Common.{
  ◌≡◌, ℕ, ◌+◌, ◌-◌, ◌%◌, ◌^◌, Bool, true, false, Option, none, some, List, [], ◌∷◌, ◌++◌, Bytes,
  take, replicate, get_elem?, set, ltb, leb, length, ◌==◌, ◌||◌, if◌then◌else◌,
}
use yacdb.Common.Text.{c_str}
use yacdb.Common.State.{Outcome, done, error, crash, Routine}

-- The numbers of utils.h.
abbrev pub reply_size : ℕ
reply_size = 2000

abbrev pub line_size : ℕ
line_size = 100

-- Where a thread stands; the first number is its socket, `r` and `w` are `fds`. Between `handling`
-- and `closing` runs `db_handle`, which reads the database at its start and leaves it changed at its
-- end. Then come fclose, sem_post, the read of the pipe, the write to the client and two closes.
pub data Thread (D : Type 0) : Type 0 where
  starting : Thread D
  selecting : ℕ → Thread D
  reading : ℕ → Thread D
  waiting : ℕ → Bytes → Thread D
  piping : ℕ → Bytes → Thread D
  handling : ℕ → Bytes → D → (r w : ℕ) → Thread D
  closing : ℕ → Bytes → (r w : ℕ) → Thread D
  releasing : ℕ → (r w : ℕ) → Thread D
  answering : ℕ → (r w : ℕ) → Thread D
  replying : ℕ → Bytes → (r w : ℕ) → Thread D
  closing_out : ℕ → (r w : ℕ) → Thread D
  closing_in : ℕ → (w : ℕ) → Thread D
  ended : Thread D

-- Where `main` stands in its loop.
pub data Main : Type 0 where
  accepting creating counting : Main

-- `nb_threads` is the bit pattern of an int. `descriptors` are the open files. `replies` are the
-- answers sent, latest first, each with its socket. `running` is false once the process has ended.
pub record Server (D : Type 0) : Type 0 where
  pub main : Main
  pub new_socket : ℕ
  pub semaphore : ℕ
  pub nb_threads : ℕ
  pub threads : List (Thread D)
  pub database : D
  pub descriptors : List ℕ
  pub replies : List (ℕ × Bytes)
  pub running : Bool

-- What happens next: a signal, what `accept`, `pthread_create`, `select`, `read`, `pipe` and `fclose`
-- return (false for a write that nobody can read any more), the bytes that come out of the pipe, or a
-- step of `main` or of the thread at a place that depends on nothing else.
pub data Event : Type 0 where
  interrupt : Event
  accept : Option ℕ → Event
  create_thread : Bool → Event
  count_thread : Event
  select_socket : ℕ → Bool → Event
  read_socket : ℕ → Option Bytes → Event
  open_pipe : ℕ → Option (ℕ × ℕ) → Event
  close_file : ℕ → Bool → Event
  read_pipe : ℕ → Bytes → Event
  advance : ℕ → Event

-- The commands handled and what `db_handle` printed for each, the latest first.
abbrev pub Log : Type 0
Log = List (Bytes × Bytes)

-- `memset` and `read`: at most so many bytes, with zeros behind.
unfoldable pub buffered : ℕ → Bytes → Bytes
buffered size bytes = take size (bytes ++ replicate size 0)

-- `close`, of a number that may be closed already or belong to another thread by now.
unfoldable pub close : ℕ → List ℕ → List ℕ
close fd [] = []
close fd (other ∷ fds) = let rest = close fd fds in if fd == other then rest else other ∷ rest

unfoldable pub is_open : ℕ → List ℕ → Bool
is_open fd [] = false
is_open fd (other ∷ fds) = (fd == other) || is_open fd fds

module _ {D : Type 0} where
  -- The server when its loop starts.
  unfoldable pub serving : D → Server D
  serving d = record {
    main = accepting;
    new_socket = 0;
    semaphore = 1;
    nb_threads = 0;
    threads = [];
    database = d;
    descriptors = [];
    replies = [];
    running = true;
  }

  abbrev pub moved : Server D → ℕ → Thread D → Server D
  moved s i t = record s { threads = set s.threads i t }

  -- `nb_threads--`, `close` and `pthread_exit`.
  unfoldable pub exit_thread : Server D → ℕ → ℕ → Server D
  unfolding close
  exit_thread s i n = record s {
    threads = set s.threads i ended;
    descriptors = close n s.descriptors;
    nb_threads = (s.nb_threads + 2 ^ 32 - 1) % 2 ^ 32;
  }

  abbrev pub halted : Server D → Server D
  halted s = record s { running = false }

  -- The test on the line, and a buffer without a zero, which `strlen` reads past: a halt here.
  unfoldable pub line_read : Server D → ℕ → ℕ → Bytes → Server D
  unfolding exit_thread
  line_read s i n [] = exit_thread s i n
  line_read s i n (b ∷ line) =
      if length (b ∷ line) == line_size then halted s else moved s i (waiting n (b ∷ line))

  unfoldable pub receive : Server D → ℕ → ℕ → Option Bytes → Server D
  unfolding exit_thread line_read
  receive s i n none = exit_thread s i n
  receive s i n (some bytes) = line_read s i n (c_str (buffered line_size bytes))

  -- The step of `main`.
  unfoldable pub accept_client : Main → Option ℕ → Server D → Option (Server D)
  unfolding is_open
  accept_client accepting (some n) s =
      if is_open n s.descriptors
      then none
      else some (record s { main = creating; new_socket = n; descriptors = n ∷ s.descriptors })
  accept_client accepting none s = some (halted s)
  accept_client _ _ s = none

  unfoldable pub start_thread : Main → Bool → Server D → Option (Server D)
  start_thread creating true s =
      some (record s { main = counting; threads = s.threads ++ starting ∷ [] })
  start_thread creating false s = some (halted s)
  start_thread _ _ s = none

  unfoldable pub add_thread : Main → Server D → Option (Server D)
  add_thread counting s =
      some (record s { main = accepting; nb_threads = (s.nb_threads + 1) % 2 ^ 32 })
  add_thread _ s = none

  -- `select` in the thread: ready, or a timeout or an error.
  unfoldable pub selected : Option (Thread D) → ℕ → Bool → Server D → Option (Server D)
  unfolding exit_thread
  selected (some (selecting n)) i true s = some (moved s i (reading n))
  selected (some (selecting n)) i false s = some (exit_thread s i n)
  selected _ i ready s = none

  unfoldable pub received : Option (Thread D) → ℕ → Option Bytes → Server D → Option (Server D)
  unfolding receive
  received (some (reading n)) i bytes s = some (receive s i n bytes)
  received _ i bytes s = none

  -- `sem_wait` goes on when the count is above 0.
  unfoldable pub take_semaphore : Bool → Server D → ℕ → ℕ → Bytes → Option (Server D × Log)
  take_semaphore true s i n line =
      some (record (moved s i (piping n line)) { semaphore = s.semaphore - 1 }, [])
  take_semaphore false s i n line = none

  unfoldable pub sem_wait : Server D → ℕ → ℕ → Bytes → Option (Server D × Log)
  unfolding take_semaphore
  sem_wait s i n line = take_semaphore (ltb 0 s.semaphore) s i n line

  -- `pipe`, which gives two numbers that are not in use. Without one, `f` is no stream: a halt here.
  unfoldable pub opened : Option (Thread D) → ℕ → Option (ℕ × ℕ) → Server D → Option (Server D)
  unfolding is_open
  opened (some (piping n line)) i (some (r, w)) s =
      if is_open r s.descriptors || is_open w (r ∷ s.descriptors)
      then none
      else (let t = handling n line s.database r w in
          some (record (moved s i t) { descriptors = r ∷ w ∷ s.descriptors }))
  opened (some (piping n line)) i none s = some (halted s)
  opened _ i fds s = none

  -- `fclose`, which waits for ever when the answer does not fit the pipe: it is read only later. The
  -- signal for a pipe that nobody can read ends the process.
  unfoldable pub closed_file : ℕ → Option (Thread D) → ℕ → Bool → Server D → Option (Server D)
  unfolding close
  closed_file pipe_size (some (closing n answer r w)) i true s =
      if leb (length answer) pipe_size
      then some (record (moved s i (releasing n r w)) { descriptors = close w s.descriptors })
      else none
  closed_file pipe_size (some (closing n answer r w)) i false s = some (halted s)
  closed_file pipe_size _ i written s = none

  -- The answer as it comes out of the pipe.
  unfoldable pub piped : Option (Thread D) → ℕ → Bytes → Server D → Option (Server D)
  unfolding buffered
  piped (some (answering n r w)) i bytes s =
      some (moved s i (replying n (buffered reply_size bytes) r w))
  piped _ i bytes s = none

  -- `db_handle` returns, or takes the process down.
  unfoldable pub handled :
      Server D → ℕ → ℕ → Bytes → (r w : ℕ) → Outcome D Bytes → Option (Server D × Log)
  handled s i n line r w (done answer d) =
      some (record (moved s i (closing n answer r w)) { database = d }, (line, answer) ∷ [])
  handled s i n line r w _ = some (halted s, [])

  abbrev pub without_log : Option (Server D) → Option (Server D × Log)
  without_log none = none
  without_log (some s) = some (s, [])

-- `pipe_size` is how many bytes a pipe holds.
module _ {D : Type 0} (pipe_size : ℕ) (db_handle : Bytes → Routine D Bytes) where
  -- The steps of `process_communication` that wait for no input.
  unfoldable pub process : Option (Thread D) → ℕ → Server D → Option (Server D × Log)
  unfolding sem_wait handled close
  process (some starting) i s = some (moved s i (selecting s.new_socket), [])
  process (some (waiting n line)) i s = sem_wait s i n line
  process (some (handling n line d r w)) i s = handled s i n line r w (db_handle line d)
  process (some (releasing n r w)) i s =
      some (record (moved s i (answering n r w)) { semaphore = s.semaphore + 1 }, [])
  process (some (replying n answer r w)) i s =
      some (record (moved s i (closing_out n r w)) { replies = (n, answer) ∷ s.replies }, [])
  process (some (closing_out n r w)) i s =
      some (record (moved s i (closing_in n w)) { descriptors = close r s.descriptors }, [])
  process (some (closing_in n w)) i s =
      some (record (moved s i (selecting n)) { descriptors = close w s.descriptors }, [])
  process _ i s = none

  unfoldable pub respond : Event → Server D → Option (Server D × Log)
  unfolding accept_client start_thread add_thread selected received opened closed_file piped process
  respond interrupt s = some (halted s, [])
  respond (accept n) s = without_log (accept_client s.main n s)
  respond (create_thread ok) s = without_log (start_thread s.main ok s)
  respond count_thread s = without_log (add_thread s.main s)
  respond (select_socket i ready) s = without_log (selected (get_elem? s.threads i) i ready s)
  respond (read_socket i bytes) s = without_log (received (get_elem? s.threads i) i bytes s)
  respond (open_pipe i fds) s = without_log (opened (get_elem? s.threads i) i fds s)
  respond (close_file i written) s =
      without_log (closed_file pipe_size (get_elem? s.threads i) i written s)
  respond (read_pipe i bytes) s = without_log (piped (get_elem? s.threads i) i bytes s)
  respond (advance i) s = process (get_elem? s.threads i) i s

  -- One step, and the command that it handled, if any; `none` when it is not possible.
  unfoldable pub step : Event → Server D → Option (Server D × Log)
  unfolding respond
  step e s = if s.running then respond e s else none

  -- The servers that steps lead to, with the log of the steps.
  pub data Steps (s : Server D) : Log → Server D → Type 0 where
    here : Steps s [] s
    next :
        {log new : Log} {t u : Server D}
        → Steps s log t
        → (e : Event) → step e t ≡ some (u, new)
        → Steps s (new ++ log) u
