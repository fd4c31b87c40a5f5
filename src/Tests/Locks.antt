-- ===== src/Tests/Locks.antt =====
-- Runs on the lock of a file.
use file_server.Base.{◌%◌, ◌^◌, ◌≡◌, refl, true, false, [], arith, length, ◌⊎◌}
use file_server.Filemeta.{WaitJob}
use file_server.Filemeta.Lock.{must_wait, park, take_lock}
use file_server.Filemeta.Lock.System.{Sys, Step, Held, grant, wait, start, step, Run, idle}
use file_server.Filemeta.Lock.Wakeup.{IsAwaited, no_lost_wakeup}
use file_server.Filemeta.Lock.Orderly.{settled, promptly}
use file_server.Filemeta.Lock.Exclusion.{prompt_exclusion, barging_breaks_exclusion}
use file_server.Tests.Samples.{notes}

abbrev reader : WaitJob
reader = record { read = true; cnt = 4 }

abbrev writer : WaitJob
writer = record { read = false; cnt = 2 }

-- A reader holds the file, and a writer waits.
abbrev busy : Sys
busy = record { file = park writer (take_lock reader (idle notes 5).file); woken = [] }

abbrev four_held : Held
four_held = record { readers = 4; writers = 0 }

unfoldable held :
    Step (idle notes 5) (record { file = take_lock reader (idle notes 5).file; woken = [] })
unfolding take_lock must_wait
held = grant reader refl refl

unfoldable queued : Step (record { file = take_lock reader (idle notes 5).file; woken = [] }) busy
unfolding take_lock park must_wait
queued = wait writer refl refl

no_lost_wakeup_example :
    (busy.file.rcnt ≡ 4)
    × (busy.file.wait_job_cnt ≡ length busy.file.jobs % 2 ^ 32)
    × IsAwaited busy four_held
unfolding held queued
no_lost_wakeup_example = no_lost_wakeup notes 5 {s = busy} {h = four_held} (
    step (step start held ((omega arith, omega arith), omega arith) refl) queued
      (omega arith, omega arith) refl)

prompt_exclusion_example :
    (busy.file.rcnt ≡ 4)
    × (busy.file.wcnt ≡ 0)
    × ((four_held.readers ≡ 0) ⊎ (four_held.writers ≡ 0))
unfolding held queued
prompt_exclusion_example = prompt_exclusion notes 5 {s = busy} {h = four_held} (
    promptly (promptly settled held ((omega arith, omega arith), omega arith) refl refl) queued
      (omega arith, omega arith) refl refl)

barging_breaks_exclusion_example :
    (s : Sys) × (h : Held) × Run (idle notes 5) s h
    × (s.file.rcnt ≡ 4)
    × (s.file.wcnt ≡ 2)
    × (h.readers ≡ 4)
    × (h.writers ≡ 2)
barging_breaks_exclusion_example =
    barging_breaks_exclusion notes 5 4 2 (omega arith) (omega arith) (omega arith) (omega arith)
