-- ===== src/Worker/Threads.antt =====
-- file_server/src/server/wthr.c: `wthr_main`, the loop of a worker thread, and `mthr_main`, the loop
-- that looks for locks to release.
pub mod Answers
use file_server.Base.{ℕ, zero, suc, ◌+◌, Bool, true, false, Option, none, some, List, [], ◌∷◌, ◌++◌}
use file_server.Filemeta.{FileInfo, FileList}
use file_server.Filemeta.Index.{get_file_cnt}
use file_server.Msg.{Msg}
use file_server.Worker.{Server, Kernel, Outcome, reply, no_reply, sleeping, crash}
use file_server.Worker.Dispatch.{msg_proc}

-- What a worker writes to its pipe: the reply, and the stream that goes with it.
abbrev pub PipeAnswer : Type 0
PipeAnswer = Msg × Option (List FileInfo)

-- The code sets `buf` for a LIST only; a pointer that it leaves unset is no stream here, and goes with
-- a reply whose `buflen` is 0.
--
-- Where a worker is after some rounds: it polls its pipe again and has written these answers, it
-- waits for a lock and will then write one more, or there was a bad access.
pub data Turn : Type 0 where
  polling : List PipeAnswer → Server → Turn
  waiting : List PipeAnswer → PipeAnswer → Server → Turn
  bad : Turn

unfoldable pub answer_turn : List PipeAnswer → Outcome → Option (List FileInfo) → Server → Turn
answer_turn written (reply m) buf s = polling (written ++ ((m, buf) ∷ [])) s
answer_turn written no_reply buf s = polling written s
answer_turn written (sleeping m) buf s = waiting written (m, buf) s
answer_turn written crash buf s = bad

-- A round of `while(!stop_worker_thread)`: `none` is a `poll` that times out.
unfoldable pub wthr_round : Kernel → Option Msg → List PipeAnswer → Server → Turn
unfolding answer_turn
wthr_round k none written s = polling written s
wthr_round k (some m) written s = let (o, s', buf) = msg_proc k m s in answer_turn written o buf s'

-- Rounds one after the other, until the thread has to wait for a lock.
unfoldable pub wthr_main : List (Kernel × Option Msg) → List PipeAnswer → Server → Turn
unfolding wthr_round
wthr_main [] written s = polling written s
wthr_main ((k, m) ∷ more) written s = elim (wthr_round k m written s) [
  | polling written' s' ↦ wthr_main more written' s'
  | waiting written' a s' ↦ waiting written' a s'
  | bad ↦ bad
]

-- `lock_timeout`: the body is commented out.
unfoldable pub lock_timeout : ℕ → FileList → Bool
lock_timeout fidx l = false

-- `release_lock`: the body is commented out.
unfoldable pub release_lock : ℕ → FileList → FileList
release_lock fidx l = l

-- The loop of `mthr_main` over the files from `i` on, for `n` files.
unfoldable pub timeouts_loop : ℕ → ℕ → FileList → FileList
timeouts_loop zero i l = l
timeouts_loop (suc n) i l = elim (lock_timeout i l) [
  | true ↦ timeouts_loop n (i + 1) (release_lock i l)
  | false ↦ timeouts_loop n (i + 1) l
]

-- A round of `mthr_main`.
unfoldable pub mthr_round : FileList → FileList
unfolding timeouts_loop
mthr_round l = timeouts_loop (get_file_cnt l) 0 l
