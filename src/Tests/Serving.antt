-- ===== src/Tests/Serving.antt =====
-- Runs of the server (server-side/server.c), with a database that counts its commands.
use yacdb.Common.{
  ℕ, ◌+◌, ◌≡◌, false, refl, Option, none, some, List, [], ◌∷◌, ◌++◌, Bytes, get_elem?, true,
}
use yacdb.Common.Text.{c_str}
use yacdb.Common.State.{Routine, done}
use yacdb.Server.{
  selecting, closing, Server, Event, accept, create_thread, count_thread, select_socket,
  read_socket, open_pipe, close_file, read_pipe, advance, Log, buffered, close, is_open, serving,
  exit_thread, line_read, receive, accept_client, start_thread, add_thread, selected, received,
  opened, closed_file, piped, take_semaphore, sem_wait, handled, process, respond, step, Steps,
  here, next,
}
use yacdb.Server.Kept.{Consistent}
use yacdb.Server.Exclusion.{serving-Consistent}

-- It echoes.
abbrev count_commands : Bytes → Routine ℕ Bytes
count_commands line n = done line (n + 1)

abbrev logged : Log → Option (Server ℕ × Log) → Option (Server ℕ × Log)
logged log none = none
logged log (some (t, new)) = some (t, new ++ log)

abbrev run_events : List Event → Option (Server ℕ × Log) → Option (Server ℕ × Log)
run_events [] o = o
run_events (e ∷ es) none = none
run_events (e ∷ es) (some (s, log)) = run_events es (logged log (step 65536 count_commands e s))

abbrev server_of : Option (Server ℕ × Log) → Server ℕ
server_of none = serving 0
server_of (some (s, log)) = s

abbrev log_of : Option (Server ℕ × Log) → Log
log_of none = []
log_of (some (s, log)) = log

-- Two clients, of which the first is in `db_handle` and the second waits.
abbrev two_clients : List Event
two_clients =
    accept (some 4)
    ∷ create_thread true
    ∷ count_thread
    ∷ advance 0
    ∷ accept (some 5)
    ∷ create_thread true
    ∷ count_thread
    ∷ advance 1
    ∷ select_socket 0 true
    ∷ read_socket 0 (some (115 ∷ 0 ∷ []))
    ∷ advance 0
    ∷ open_pipe 0 (some (6, 7))
    ∷ select_socket 1 true
    ∷ read_socket 1 (some (99 ∷ 0 ∷ []))
    ∷ []

abbrev after : List Event → Option (Server ℕ × Log)
after es = run_events es (some (serving 0, []))

abbrev busy : Server ℕ
busy = server_of (after two_clients)

-- What a run computes through.
program : Unit {0}
unfolding step respond accept_client start_thread add_thread selected received opened closed_file
    piped process sem_wait take_semaphore handled receive line_read buffered c_str serving
    exit_thread close is_open
program = tt

abbrev one_socket : List Event
one_socket =
    accept (some 4)
    ∷ create_thread true
    ∷ count_thread
    ∷ accept (some 5)
    ∷ create_thread true
    ∷ advance 0
    ∷ advance 1
    ∷ []

-- Two threads serve the same socket: the second client is accepted before the first thread reads
-- its argument.
two_threads_one_socket : (server_of (after one_socket)).threads ≡ selecting 5 ∷ selecting 5 ∷ []
unfolding program
two_threads_one_socket = refl

abbrev IsReached : Option (Server ℕ × Log) → Type 0
IsReached none = Unit
IsReached (some (s, log)) = Steps 65536 count_commands (serving 0) log s

reach : (es : List Event) (o : Option (Server ℕ × Log)) → IsReached o → IsReached (run_events es o)
reach [] o r = r
reach (e ∷ es) none r = tt
reach (e ∷ es) (some (s, log)) r = reach es _ (reach_step e s log _ r refl)
  where
    reach_step :
        (e : Event) (s : Server ℕ) (log : Log) (o : Option (Server ℕ × Log))
        → Steps 65536 count_commands (serving 0) log s
        → step 65536 count_commands e s ≡ o
        → IsReached (logged log o)
    reach_step e s log none r q = tt
    reach_step e s log (some (t, new)) r q = next r e q

-- The command of the first client, and that of the second, up to its answer.
abbrev both_handled : List Event
both_handled =
    two_clients
    ++ advance 0
      ∷ close_file 0 true
      ∷ advance 0
      ∷ advance 1
      ∷ open_pipe 1 (some (7, 8))
      ∷ read_pipe 0 (115 ∷ [])
      ∷ advance 0
      ∷ advance 1
      ∷ []

serving-Consistent_example :
    Consistent count_commands 0
      (log_of (after both_handled))
      0
      (server_of (after both_handled)).threads
      2
unfolding program
serving-Consistent_example =
    serving-Consistent 65536 count_commands 0 (log_of (after both_handled))
      (server_of (after both_handled)) (reach both_handled (some (serving 0, [])) here)

abbrev both_closed : List Event
both_closed = both_handled ++ advance 0 ∷ advance 0 ∷ []

-- The first thread closes its number 7 again, which is by now the end of the pipe that the second thread
-- reads from.
closed_again :
    (get_elem? (server_of (after both_closed)).threads 1 ≡ some (closing 5 (99 ∷ []) 7 8))
    × (is_open 7 (server_of (after both_closed)).descriptors ≡ false)
unfolding program
closed_again = (refl, refl)
