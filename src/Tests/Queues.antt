-- ===== src/Tests/Queues.antt =====
-- Runs of the job queue and of the hand-out of jobs.
use file_server.Base.{
  ℕ, ◌+◌, ◌≡◌, refl, ◌⊎◌, true, false, none, some, List, [], ◌∷◌, ◌++◌, ◌==◌, if◌then◌else◌, arith,
  get_elem?, All,
}
use file_server.Queue.{Heap, Queue, enqueue, dequeue, queue_init, queue_destroy}
use file_server.Queue.Chain.{Cell}
use file_server.Queue.Fifo.{Op, put, get, run, fifo, Mallocs, run-refines}
use file_server.Queue.Cells.{Holds, datas}
use file_server.Queue.Destroy.{queue_destroy-All}
use file_server.Jobs.{IpcMsg, Jobs, assign_job, worker_done, write_pipe}
use file_server.Jobs.Order.{Waits, assign_job-Waits, worker_done-Waits}

abbrev no_nodes : Heap
no_nodes = λ p. none

empty_Holds : Holds (queue_init no_nodes) []
unfolding queue_init
empty_Holds = record { head = refl; tail = refl; size = refl; chain = tt; distinct = tt }

abbrev calls : List Op
calls = put 4 40 ∷ put 8 80 ∷ get ∷ put 4 41 ∷ get ∷ get ∷ get ∷ []

calls-Mallocs : Mallocs calls (queue_init no_nodes)
unfolding queue_init enqueue dequeue
calls-Mallocs = (refl, (refl, (refl, tt)))

run-refines_example :
    (q' : Queue) × (cs' : List Cell) × (run calls (queue_init no_nodes)
      ≡ some ((fifo calls []).0, q'))
    × Holds q' cs'
    × (datas cs' ≡ (fifo calls []).1)
run-refines_example =
    run-refines calls (queue_init no_nodes) [] empty_Holds calls-Mallocs (omega arith)

-- Two nodes, at 4 and 8.
abbrev two_nodes : Queue
two_nodes = record {
  heap = λ p.
      if p == 4
      then some (record { next = some 8; payload = 40 })
      else if p == 8
      then some (record { next = none; payload = 80 })
      else none;
  head = some 4;
  tail = some 8;
  size = 2;
}

abbrev cells : List Cell
cells = (4, 40) ∷ (8, 80) ∷ []

two_nodes-Holds : Holds two_nodes cells
two_nodes-Holds = record {
  head = refl;
  tail = refl;
  size = refl;
  chain = (refl, (refl, tt));
  distinct = ((refl, tt), (tt, tt));
}

queue_destroy-All_example :
    (q' : Queue) × (queue_destroy 3 two_nodes ≡ some (40 ∷ 80 ∷ [], q'))
    × All (λ c. q'.heap c.0 ≡ none) cells
    × (q'.head ≡ some 4)
queue_destroy-All_example = queue_destroy-All 3 two_nodes cells two_nodes-Holds (omega arith)

abbrev request : ℕ → IpcMsg
request n = record { pconn = n; pmsg = n + 100; buf = 0 }

-- Two busy workers, and two requests that wait.
abbrev pub busy_jobs : Jobs
busy_jobs = record {
  isrun = true ∷ true ∷ [];
  pipes = [] ∷ [] ∷ [];
  copies = λ p. if p == 40 then some (request 1) else if p == 80 then some (request 2) else none;
  queue = two_nodes;
}

busy_jobs-Waits : Waits busy_jobs cells (request 1 ∷ request 2 ∷ [])
busy_jobs-Waits = record { holds = two_nodes-Holds; copies = refl; own = ((refl, tt), (tt, tt)) }

assign_job-Waits_example :
    (s' : Jobs) × (assign_job 120 12 (request 3) busy_jobs ≡ some s')
    × (((i : ℕ) × (get_elem? busy_jobs.isrun i ≡ some false)
          × (s' ≡ record busy_jobs { pipes = write_pipe busy_jobs.pipes i (request 3) }))
        ⊎ (All (λ b. b ≡ true) busy_jobs.isrun
            × (s'.pipes ≡ busy_jobs.pipes)
            × Waits s' (cells ++ ((12, 120) ∷ [])) (request 1 ∷ request 2 ∷ request 3 ∷ [])))
assign_job-Waits_example =
    assign_job-Waits 120 12 (request 3) busy_jobs cells (request 1 ∷ request 2 ∷ []) busy_jobs-Waits
      refl refl (omega arith)

worker_done-Waits_example :
    (s' : Jobs) × (worker_done 1 busy_jobs ≡ some s')
    × ((((request 1 ∷ request 2 ∷ []) ≡ []) × (s' ≡ busy_jobs))
        ⊎ ((cs' : List Cell) × (m : IpcMsg) × (ms' : List IpcMsg) × ((request 1 ∷ request 2 ∷ [])
              ≡ m ∷ ms')
            × (s'.pipes ≡ write_pipe busy_jobs.pipes 1 m)
            × Waits s' cs' ms'))
worker_done-Waits_example =
    worker_done-Waits 1 busy_jobs cells (request 1 ∷ request 2 ∷ []) busy_jobs-Waits (omega arith)
