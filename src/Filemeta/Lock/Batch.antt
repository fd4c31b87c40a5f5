-- ===== src/Filemeta/Lock/Batch.antt =====
-- The loop of `decrease_lock_cnt`: which jobs a release signals.
use file_server.Base.{
  ℕ, ◌%◌, ◌^◌, ◌≡◌, refl, ◌⊎◌, inl, inr, true, false, List, [], ◌∷◌, ◌++◌, arith, length, All,
  Bool-cases,
}
use file_server.Base.Word.{sub_word}
use file_server.Filemeta.{WaitJob}
use file_server.Filemeta.Lock.{first_reads, signal_jobs}

abbrev pub IsReader : WaitJob → Type 0
IsReader j = j.read ≡ true

-- A batch is one writer, or the readers up to the next writer.
abbrev pub IsBatch : List WaitJob → List WaitJob → Type 0
IsBatch woken left =
    ((w : WaitJob) × (woken ≡ w ∷ []) × (w.read ≡ false))
    ⊎ (All IsReader woken × (first_reads left ≡ false))

pub signal_jobs-append :
    (n : ℕ) (js : List WaitJob) → let s = signal_jobs n js in s.woken ++ s.left ≡ js
unfolding signal_jobs
signal_jobs-append n [] = refl
signal_jobs-append n (j ∷ js) = ground (arith, signal_jobs-append (sub_word n 1) js)

readers :
    (n : ℕ) (j : WaitJob) (js : List WaitJob)
    → j.read ≡ true
    → let s = signal_jobs n (j ∷ js) in All IsReader s.woken × (first_reads s.left ≡ false)
unfolding signal_jobs
readers n j [] r = ground arith
readers n j (k ∷ js) r = elim (Bool-cases k.read) [
  | inl e ↦ ground (arith, readers (sub_word n 1) k js e)
  | inr e ↦ ground arith
]

-- A release signals a batch from the front of the queue and leaves the rest in its order: either
-- one writer alone, or readers up to the next writer or the end.
pub signal_jobs-IsBatch :
    (n : ℕ) (j : WaitJob) (js : List WaitJob)
    → let s = signal_jobs n (j ∷ js) in (s.woken ++ s.left ≡ j ∷ js) × IsBatch s.woken s.left
signal_jobs-IsBatch n j js = (signal_jobs-append n (j ∷ js), batch (Bool-cases j.read))
  where
    batch :
        (j.read ≡ true) ⊎ (j.read ≡ false)
        → let s = signal_jobs n (j ∷ js) in IsBatch s.woken s.left
    batch (inl r) = inr (readers n j js r)
    batch (inr w) = inl (j, unfold signal_jobs in rw w, w)

pub signal_jobs-count :
    (n : ℕ) (js : List WaitJob)
    → n ≡ length js % 2 ^ 32
    → let s = signal_jobs n js in s.count ≡ length s.left % 2 ^ 32
unfolding signal_jobs
signal_jobs-count n [] e = e
signal_jobs-count n (j ∷ js) e = ground (arith, signal_jobs-count (sub_word n 1) js)
