-- ===== src/Tests/Mains.antt =====
-- Runs of the main loop.
use file_server.Base.{◌≡◌, refl, true, false, none, some, [], ◌∷◌, replicate}
use file_server.Main.{Main, Poll, main_round}
use file_server.Main.Connections.{Counted, main_round-Counted}
use file_server.Main.Full.{full_rounds_do_nothing}
use file_server.Main.Waiting.{Keeps, IsQuiet, main_rounds, jobs_wait_for_an_answer}
use file_server.Tests.Queues.{busy_jobs}

-- A client in slot 0, which closes its connection.
abbrev one_client : Main
one_client = record {
  fds = some 7 ∷ replicate 199 none;
  polled = 1;
  cur_con = 1;
  jobs = busy_jobs;
  sent = [];
}

abbrev leaves : Poll
leaves = record {
  nread = 1;
  listening = false;
  accepts = λ c. 9;
  workers = λ i. none;
  ethr = none;
  clients = λ c. some none;
  pcopy = λ c. 0;
  pnode = λ c. 0;
}

main_round-Counted_example : Counted (main_round leaves one_client)
main_round-Counted_example =
    main_round-Counted leaves one_client (record { count = refl; slots = refl })

abbrev full : Main
full = record one_client { fds = replicate 200 (some 7); cur_con = 200; polled = 200 }

abbrev arrives : Poll
arrives = record leaves { nread = 3; listening = true }

full_rounds_do_nothing_example : main_round arrives full ≡ some full
full_rounds_do_nothing_example =
    full_rounds_do_nothing arrives full (record { count = refl; slots = refl }) refl refl

-- The event thread writes, and the client in slot 0 leaves.
abbrev no_answers : Poll
no_answers = record leaves { nread = 2; ethr = some (record { pconn = 1; pmsg = 5; buf = 0 }) }

-- Two jobs wait, though the first worker does not run.
abbrev worker_rests : Main
worker_rests = record one_client { jobs = record busy_jobs { isrun = false ∷ true ∷ [] } }

no_answers-IsQuiet : IsQuiet no_answers
no_answers-IsQuiet = record { workers = λ i. refl; clients = λ c msg e. cc }

jobs_wait_for_an_answer_example :
    Keeps worker_rests.jobs (main_rounds (no_answers ∷ no_answers ∷ []) worker_rests)
jobs_wait_for_an_answer_example =
    jobs_wait_for_an_answer (no_answers ∷ no_answers ∷ []) worker_rests
      (no_answers-IsQuiet, (no_answers-IsQuiet, tt))
