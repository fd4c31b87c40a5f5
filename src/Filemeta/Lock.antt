-- ===== src/Filemeta/Lock.antt =====
-- file_server/src/server/filemeta.c: `wait_lock`, `decrease_lock_cnt` and `get_fd_by_fidx`. What a
-- thread does between taking a file's mutex and giving it back is one function; a wait on a
-- condition variable cuts `wait_lock` in two, `park` before it and `take_lock` after it.
pub mod Batch
pub mod Units
pub mod System
pub mod Invariant
pub mod Wakeup
pub mod Orderly
pub mod Exclusion
pub mod Stray
use file_server.Base.{
  ℕ, ◌+◌, Bool, true, false, ◌&&◌, ◌||◌, Option, none, some, List, [], ◌∷◌, ◌++◌, ◌==◌,
  if◌then◌else◌, get_elem?, set,
}
use file_server.Base.Word.{add_word, sub_word, minus_one, is_positive, is_negative, ge_int}
use file_server.Filemeta.{WaitJob, FileMeta, FileList}

-- `pfm->head != NULL`
abbrev pub has_jobs : List WaitJob → Bool
has_jobs [] = false
has_jobs (j ∷ js) = true

-- The test of each branch of `wait_lock`: a reader waits for a writer and for every job that waits
-- already, a writer for readers too.
unfoldable pub must_wait : Bool → FileMeta → Bool
must_wait true m = is_positive m.wcnt || has_jobs m.jobs
must_wait false m = is_positive m.wcnt || is_positive m.rcnt || has_jobs m.jobs

-- A new job goes behind the tail.
unfoldable pub park : WaitJob → FileMeta → FileMeta
park j m = record m { jobs = m.jobs ++ (j ∷ []); wait_job_cnt = add_word m.wait_job_cnt 1 }

-- `rcnt += lock_cnt` or `wcnt = lock_cnt`, at once or after the wait: the state is not tested again.
unfoldable pub take_lock : WaitJob → FileMeta → FileMeta
take_lock j m =
    if j.read then record m { rcnt = add_word m.rcnt j.cnt } else record m { wcnt = j.cnt }

-- `wait_lock`: false, true with the lock taken, the thread asleep, or an access outside of the array.
pub data WaitResult : Type 0 where
  refused : WaitResult
  granted : FileList → WaitResult
  parked : FileList → WaitResult
  bad_index : WaitResult

unfoldable pub enter : WaitJob → FileMeta → Bool × FileMeta
unfolding must_wait park take_lock
enter j m = if must_wait j.read m then (false, park j m) else (true, take_lock j m)

abbrev pub entered : FileList → ℕ → Bool × FileMeta → WaitResult
entered l i (true, m) = granted (record l { filearr = set l.filearr i m })
entered l i (false, m) = parked (record l { filearr = set l.filearr i m })

-- The guard reads the index as an `int`, so a pattern from 2 ^ 31 on passes it.
unfoldable pub wait_lock : ℕ → ℕ → Bool → FileList → WaitResult
unfolding enter
wait_lock fidx lock_cnt read l =
    if ge_int fidx l.cnt
    then refused
    else if is_negative fidx
    then bad_index
    else elim (get_elem? l.filearr fidx) [
      | none ↦ bad_index
      | some m ↦ entered l fidx (enter (record { read = read; cnt = lock_cnt }) m)
    ]

-- `pfm->head && pfm->head->read`
abbrev pub first_reads : List WaitJob → Bool
first_reads [] = false
first_reads (j ∷ js) = j.read

-- What the loop of `decrease_lock_cnt` leaves: the job count, the jobs that it signalled, in
-- order, and the jobs that still wait.
pub record Signalled : Type 0 where
  pub count : ℕ
  pub woken : List WaitJob
  pub left : List WaitJob

-- The `do … while (head && readable && head->read)` loop, at a head that is not NULL.
unfoldable pub signal_jobs : ℕ → List WaitJob → Signalled
signal_jobs n [] = record { count = n; woken = []; left = [] }
signal_jobs n (j ∷ js) =
    let rest = signal_jobs (sub_word n 1) js in
    if j.read && first_reads js
    then record { count = rest.count; woken = j ∷ rest.woken; left = rest.left }
    else record { count = sub_word n 1; woken = j ∷ []; left = js }

abbrev pub drop_unit : Bool → FileMeta → FileMeta
drop_unit true m = record m { rcnt = sub_word m.rcnt 1 }
drop_unit false m = record m { wcnt = sub_word m.wcnt 1 }

-- The counter of the given side is 0.
abbrev pub is_free : Bool → FileMeta → Bool
is_free true m = m.rcnt == 0
is_free false m = m.wcnt == 0

-- `decrease_lock_cnt` on one file, with the jobs that it signals.
unfoldable pub release : Bool → FileMeta → FileMeta × List WaitJob
unfolding signal_jobs
release read m =
    let m' : FileMeta = drop_unit read m in
    let s : Signalled = signal_jobs m'.wait_job_cnt m'.jobs in
    if is_free read m' && has_jobs m'.jobs
    then (record m' { jobs = s.left; wait_job_cnt = s.count }, s.woken)
    else (m', [])

-- `decrease_lock_cnt`. `none` is an access outside of the array.
unfoldable pub decrease_lock_cnt : ℕ → Bool → FileList → Option (FileList × List WaitJob)
unfolding release
decrease_lock_cnt fidx read l =
    if ge_int fidx l.cnt
    then some (l, [])
    else if is_negative fidx
    then none
    else elim (get_elem? l.filearr fidx) [
      | none ↦ none
      | some m ↦
          let (m', woken) = release read m in
          some (record l { filearr = set l.filearr fidx m' }, woken)
    ]

-- The descriptor of one file, opened when there is none yet; `opened` is what `open` returns.
unfoldable pub open_fd : Bool → ℕ → FileMeta → ℕ × FileMeta
open_fd read opened m =
    if read
    then (if is_negative m.rfd then (opened, record m { rfd = opened }) else (m.rfd, m))
    else (if is_negative m.wfd then (opened, record m { wfd = opened }) else (m.wfd, m))

-- `get_fd_by_fidx`. `none` is an access outside of the array.
unfoldable pub get_fd_by_fidx : ℕ → Bool → ℕ → FileList → Option (ℕ × FileList)
unfolding open_fd
get_fd_by_fidx fidx read opened l =
    if ge_int fidx l.cnt
    then some (minus_one, l)
    else if is_negative fidx
    then none
    else elim (get_elem? l.filearr fidx) [
      | none ↦ none
      | some m ↦
          let (fd, m') = open_fd read opened m in
          some (fd, record l { filearr = set l.filearr fidx m' })
    ]
