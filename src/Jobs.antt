-- ===== src/Jobs.antt =====
-- file_server/src/server/server.c: `assign_job`, `get_new_job`, and what the main loop does when a
-- worker has answered.
pub mod Order
pub mod Copies
use file_server.Base.{
  ℕ, zero, suc, ◌+◌, Bool, true, false, Option, none, some, List, [], ◌∷◌, ◌++◌, ◌==◌,
  if◌then◌else◌, get_elem?, set,
}
use file_server.Queue.{Queue, enqueue, dequeue}

-- `ipc_msg_t`: three pointers.
pub record IpcMsg : Type 0 where
  pub pconn : ℕ
  pub pmsg : ℕ
  pub buf : ℕ

-- `isrun` of each worker, what was written to each worker's pipe, oldest first, the copies of
-- messages that are allocated, and the queue of pointers to them.
pub record Jobs : Type 0 where
  pub isrun : List Bool
  pub pipes : List (List IpcMsg)
  pub copies : ℕ → Option IpcMsg
  pub queue : Queue

-- The loop over the workers: the first that does not run.
unfoldable pub first_idle : List Bool → Option ℕ
first_idle [] = none
first_idle (true ∷ bs) = elim (first_idle bs) [ none ↦ none | some i ↦ some (suc i) ]
first_idle (false ∷ bs) = some 0

abbrev pub write_pipe : List (List IpcMsg) → ℕ → IpcMsg → List (List IpcMsg)
write_pipe pipes i m = elim (get_elem? pipes i) [
  | none ↦ pipes
  | some ms ↦ set pipes i (ms ++ (m ∷ []))
]

abbrev pub with_copy : (ℕ → Option IpcMsg) → ℕ → Option IpcMsg → ℕ → Option IpcMsg
with_copy copies p m = λ q. if q == p then m else copies q

-- `assign_job` where `malloc` returns `pcopy` for the copy and `pnode` for the queue's node.
unfoldable pub assign_job : ℕ → ℕ → IpcMsg → Jobs → Option Jobs
assign_job pcopy pnode m s = elim (first_idle s.isrun) [
  | some i ↦ some (record s { pipes = write_pipe s.pipes i m })
  | none ↦ elim (enqueue pnode pcopy s.queue) [
    | none ↦ none
    | some q ↦ some (record s { copies = with_copy s.copies pcopy (some m); queue = q })
  ]
]

-- `get_new_job`: the message, or `some none` for its -1. `none` is a bad access.
unfoldable pub get_new_job : Jobs → Option (Option IpcMsg × Jobs)
get_new_job s = elim (dequeue s.queue) [
  | none ↦ none
  | some (none, q) ↦ some (none, record s { queue = q })
  | some (some p, q) ↦ elim (s.copies p) [
    | none ↦ none
    | some m ↦ some (some m, record s { copies = with_copy s.copies p none; queue = q })
  ]
]

-- Worker `i` has answered: it gets the next job.
unfoldable pub worker_done : ℕ → Jobs → Option Jobs
worker_done i s = elim (get_new_job s) [
  | none ↦ none
  | some (none, s') ↦ some s'
  | some (some m, s') ↦ some (record s' { pipes = write_pipe s'.pipes i m })
]
