-- ===== src/Filemeta/Lock/Wakeup.antt =====
-- The jobs that wait for a file's lock, in every order of the threads' steps.
use file_server.Base.{ℕ, ◌%◌, ◌^◌, ◌<◌, ◌≡◌, ◌⊎◌, inl, inr, true, [], arith, length}
use file_server.Base.Word.{is_positive}
use file_server.Filemeta.{FileInfo}
use file_server.Filemeta.Lock.{has_jobs}
use file_server.Filemeta.Lock.System.{Sys, Run, idle, Held}
use file_server.Filemeta.Lock.Invariant.{Inv, IsServed, Run-Inv}

-- Nobody waits, or units are held on a side whose counter is positive as an `int`, or a signalled
-- job has yet to run.
abbrev pub IsAwaited : Sys → Held → Type 0
IsAwaited s h =
    (s.file.jobs ≡ [])
    ⊎ ((is_positive s.file.rcnt ≡ true) × (0 < h.readers))
    ⊎ ((is_positive s.file.wcnt ≡ true) × (0 < h.writers))
    ⊎ (has_jobs s.woken ≡ true)

Inv-IsAwaited : (s : Sys) (h : Held) → Inv s h → IsServed s → IsAwaited s h
Inv-IsAwaited s h v (inl none_wait) = inl none_wait
Inv-IsAwaited s h v (inr (inl r)) = inr (inl (r, ground (arith, v.rcnt)))
Inv-IsAwaited s h v (inr (inr (inl w))) = inr (inr (inl (w, ground (arith, v.wcnt, v.lag_int))))
Inv-IsAwaited s h v (inr (inr (inr k))) = inr (inr (inr k))

-- In every order of the threads' steps from an unused file, where each request is for at least one
-- unit, what is held on a side fits an `int`, and each unit that is given back was taken: the
-- readers' counter is the units that readers hold, `wait_job_cnt` is the length of the queue modulo
-- 2 ^ 32, and while a job waits, units are held on a side whose counter is positive, or a signalled
-- job has yet to run. This holds also where a writer takes the lock over another one and the
-- writers' counter becomes negative.
pub no_lost_wakeup :
    (info : FileInfo) (now : ℕ) {s : Sys} {h : Held}
    → Run (idle info now) s h
    → (s.file.rcnt ≡ h.readers)
      × (s.file.wait_job_cnt ≡ length s.file.jobs % 2 ^ 32)
      × IsAwaited s h
no_lost_wakeup info now {s} {h} r =
    let v = Run-Inv info now r in (v.rcnt, v.counted, Inv-IsAwaited s h v v.served)
