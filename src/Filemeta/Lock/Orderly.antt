-- ===== src/Filemeta/Lock/Orderly.antt =====
-- The orders of the threads' steps in which every signalled job runs first.
use file_server.Base.{
  ℕ, ◌^◌, ◌<◌, ◌≡◌, refl, sym, subst, ◌∙◌, ◌⊎◌, inl, inr, Bool, true, false, ◌&&◌, List, [], ◌∷◌,
  ◌++◌, arith, All, All-append, Bool-cases,
}
use file_server.Filemeta.{FileInfo, WaitJob, FileMeta}
use file_server.Filemeta.Lock.{
  must_wait, park, take_lock, release, signal_jobs, drop_unit, is_free, has_jobs,
}
use file_server.Filemeta.Lock.Batch.{IsReader, IsBatch, signal_jobs-IsBatch}
use file_server.Filemeta.Lock.System.{
  Sys, Step, grant, wait, give_back, resume, idle, Held, nobody, units, IsDue, after, take_units,
  give_unit,
}
use file_server.Filemeta.Lock.Invariant.{Inv, Step-Inv, idle-Inv, All-split}

-- The counter of that side is above 0.
abbrev Holds : Bool → FileMeta → Type 0
Holds true m = 0 < m.rcnt
Holds false m = 0 < m.wcnt

-- Every signalled job runs before any other thread takes the mutex.
abbrev pub IsPrompt : {s t : Sys} → Step s t → Type 0
IsPrompt {s} (grant _ _ _) = s.woken ≡ []
IsPrompt {s} (wait _ _ _) = s.woken ≡ []
IsPrompt {s} (give_back _ _) = s.woken ≡ []
IsPrompt {s} (resume _ _ _ _ _) = Unit

-- Such steps, of callers that keep to what `IsDue` asks of them.
pub data PromptRun (s : Sys) : Sys → Held → Type 0 where
  settled : PromptRun s s nobody
  promptly :
      {t u : Sys} {h k : Held}
      → PromptRun s t h
      → (st : Step t u) → IsDue st h
      → IsPrompt st
      → k ≡ after st h
      → PromptRun s u k

abbrev pub Excludes : FileMeta → Type 0
Excludes m = (m.rcnt ≡ 0) ⊎ (m.wcnt ≡ 0)

-- No signalled job is left, or they are readers and nobody writes, or one writer and nobody else.
abbrev IsOrderly : FileMeta → List WaitJob → Type 0
IsOrderly m woken =
    ((woken ≡ []) × Excludes m)
    ⊎ (All IsReader woken × (m.wcnt ≡ 0))
    ⊎ ((w : WaitJob) × (woken ≡ w ∷ []) × (w.read ≡ false) × (m.rcnt ≡ 0) × (m.wcnt ≡ 0))

grant-Excludes :
    (j : WaitJob) (m : FileMeta)
    → m.rcnt < 2 ^ 31
    → m.wcnt < 2 ^ 31
    → must_wait j.read m ≡ false
    → Excludes (take_lock j m)
unfolding must_wait take_lock
grant-Excludes j m r w free = ground arith

batch-IsOrderly :
    (m : FileMeta) (woken left : List WaitJob)
    → m.rcnt ≡ 0
    → m.wcnt ≡ 0
    → IsBatch woken left
    → IsOrderly m woken
batch-IsOrderly m woken left r w (inl (j, e, writes)) = inr (inr (j, e, writes, r, w))
batch-IsOrderly m woken left r w (inr (readers, _)) = inr (inl (readers, w))

signal-IsOrderly :
    (m : FileMeta) (js : List WaitJob) (n : ℕ)
    → m.rcnt ≡ 0
    → m.wcnt ≡ 0
    → IsOrderly m (signal_jobs n js).woken
unfolding signal_jobs
signal-IsOrderly m [] n r w = inl (refl, inl r)
signal-IsOrderly m (j ∷ js) n r w =
    batch-IsOrderly m _ (signal_jobs n (j ∷ js)).left r w (signal_jobs-IsBatch n j js).1

release-IsOrderly :
    (read : Bool) (m : FileMeta)
    → Holds read m
    → m.rcnt < 2 ^ 31
    → m.wcnt < 2 ^ 31
    → Excludes m
    → IsOrderly (release read m).0 (release read m).1
unfolding release
release-IsOrderly true m h r w x = elim (Bool-cases (is_free true m' && has_jobs m'.jobs)) [
  | inl e ↦ rw e (signal-IsOrderly m'' m.jobs m.wait_job_cnt (ground arith) (ground arith))
  | inr e ↦ rw e (inl (refl, ground arith))
]
  where
    m' : FileMeta
    m' = drop_unit true m

    m'' : FileMeta
    m'' = record m' {
      jobs = (signal_jobs m.wait_job_cnt m.jobs).left;
      wait_job_cnt = (signal_jobs m.wait_job_cnt m.jobs).count;
    }
release-IsOrderly false m h r w x = elim (Bool-cases (is_free false m' && has_jobs m'.jobs)) [
  | inl e ↦ rw e (signal-IsOrderly m'' m.jobs m.wait_job_cnt (ground arith) (ground arith))
  | inr e ↦ rw e (inl (refl, ground arith))
]
  where
    m' : FileMeta
    m' = drop_unit false m

    m'' : FileMeta
    m'' = record m' {
      jobs = (signal_jobs m.wait_job_cnt m.jobs).left;
      wait_job_cnt = (signal_jobs m.wait_job_cnt m.jobs).count;
    }

empty-split : (xs ys : List WaitJob) (j : WaitJob) → [] ≡ xs ++ (j ∷ ys) → ⊥
empty-split [] ys j e = cc
empty-split (x ∷ xs) ys j e = cc

one-split :
    (xs ys : List WaitJob) (w j : WaitJob) → w ∷ [] ≡ xs ++ (j ∷ ys) → (xs ++ ys ≡ []) × (j ≡ w)
one-split [] ys w j e = (ground arith, ground arith)
one-split (x ∷ xs) ys w j e = absurd (empty-split xs ys j (ground arith))

resume-IsOrderly :
    (s : Sys) (xs ys : List WaitJob) (j : WaitJob)
    → s.woken ≡ xs ++ (j ∷ ys)
    → IsOrderly s.file s.woken
    → IsOrderly (take_lock j s.file) (xs ++ ys)
unfolding take_lock
resume-IsOrderly s xs ys j e (inl (none, x)) = absurd (empty-split xs ys j (sym none ∙ e))
resume-IsOrderly s xs ys j e (inr (inl (readers, w))) =
    let (before, at) = All-split IsReader xs (j ∷ ys) (subst (All IsReader) e readers) in
    inr (inl (All-append IsReader xs ys before at.1, ground arith))
resume-IsOrderly s xs ys j e (inr (inr (k, only, writes, r, w))) =
    let (none, same) = one-split xs ys k j (sym only ∙ e) in inl (none, ground arith)

-- What the order of the steps has to keep up.
pub record Orderly (s : Sys) (h : Held) : Type 0 where
  pub inv : Inv s h
  pub exact : s.file.wcnt ≡ h.writers
  pub orderly : IsOrderly s.file s.woken

pub IsOrderly-Excludes : (m : FileMeta) (woken : List WaitJob) → IsOrderly m woken → Excludes m
IsOrderly-Excludes m woken (inl (_, x)) = x
IsOrderly-Excludes m woken (inr (inl (_, w))) = inr w
IsOrderly-Excludes m woken (inr (inr (_, _, _, r, _))) = inl r

rcnt_int : {s : Sys} {h : Held} → Orderly s h → s.file.rcnt < 2 ^ 31
rcnt_int o = omega (arith, o.inv.rcnt, o.inv.readers_int)

wcnt_int : {s : Sys} {h : Held} → Orderly s h → s.file.wcnt < 2 ^ 31
wcnt_int o = omega (arith, o.exact, o.inv.writers_int)

due-Holds : (read : Bool) {s : Sys} {h : Held} → Orderly s h → 0 < units read h → Holds read s.file
due-Holds true o due = omega (arith, o.inv.rcnt)
due-Holds false o due = omega (arith, o.exact)

Step-IsOrderly :
    {s t : Sys} {h : Held} (st : Step s t)
    → IsDue st h
    → IsPrompt st
    → Orderly s h
    → IsOrderly t.file t.woken
unfolding park
Step-IsOrderly {s} (grant j free e) due q o =
    rw e (inl (q, grant-Excludes j s.file (rcnt_int o) (wcnt_int o) free))
Step-IsOrderly {s} (wait j busy e) due q o =
    rw e (inl (q, IsOrderly-Excludes s.file s.woken o.orderly))
Step-IsOrderly {s} (give_back read e) due q o =
    rw (e, q)
      (release-IsOrderly read s.file (due-Holds read o due) (rcnt_int o) (wcnt_int o)
        (IsOrderly-Excludes s.file s.woken o.orderly))
Step-IsOrderly {s} (resume xs ys j w e) due q o = rw e (resume-IsOrderly s xs ys j w o.orderly)

-- A writer that takes the lock finds no unit of a writer.
taken-exact :
    (j : WaitJob) (m : FileMeta) (h : Held)
    → (j.read ≡ false → m.wcnt ≡ 0)
    → m.wcnt ≡ h.writers
    → (take_lock j m).wcnt ≡ (take_units j.read j.cnt h).writers
unfolding take_lock
taken-exact j m h free e = elim (Bool-cases j.read) [
  | inl r ↦ rw (r, take_lock) e
  | inr w ↦ rw (w, take_lock) (omega (arith, free w, e))
]

grant-free :
    (j : WaitJob) (m : FileMeta)
    → m.wcnt < 2 ^ 31
    → must_wait j.read m ≡ false
    → j.read ≡ false
    → m.wcnt ≡ 0
unfolding must_wait
grant-free j m small free w = ground arith

resume-free :
    (s : Sys) (xs ys : List WaitJob) (j : WaitJob)
    → s.woken ≡ xs ++ (j ∷ ys)
    → IsOrderly s.file s.woken
    → j.read ≡ false
    → s.file.wcnt ≡ 0
resume-free s xs ys j e (inl (none, x)) w = absurd (empty-split xs ys j (sym none ∙ e))
resume-free s xs ys j e (inr (inl (readers, free))) w = free
resume-free s xs ys j e (inr (inr (k, only, writes, r, free))) w = free

release-wcnt : (read : Bool) (m : FileMeta) → (release read m).0.wcnt ≡ (drop_unit read m).wcnt
unfolding release
release-wcnt true m = ground arith
release-wcnt false m = ground arith

given-exact :
    (read : Bool) (m : FileMeta) (h : Held)
    → 0 < units read h
    → h.writers < 2 ^ 31
    → m.wcnt ≡ h.writers
    → (release read m).0.wcnt ≡ (give_unit read h).writers
given-exact true m h due small e = release-wcnt true m ∙ e
given-exact false m h due small e = release-wcnt false m ∙ omega arith

Step-exact :
    {s t : Sys} {h : Held} (st : Step s t)
    → IsDue st h
    → Orderly s h
    → t.file.wcnt ≡ (after st h).writers
unfolding park
Step-exact {s} {t} {h} (grant j free e) due o =
    rw e (taken-exact j s.file h (grant-free j s.file (wcnt_int o) free) o.exact)
Step-exact {s} {t} {h} (wait j busy e) due o = rw e o.exact
Step-exact {s} {t} {h} (give_back read e) due o =
    rw e (given-exact read s.file h due o.inv.writers_int o.exact)
Step-exact {s} {t} {h} (resume xs ys j w e) due o =
    rw e (taken-exact j s.file h (resume-free s xs ys j w o.orderly) o.exact)

pub PromptRun-Orderly :
    (info : FileInfo) (now : ℕ) {s : Sys} {h : Held} → PromptRun (idle info now) s h → Orderly s h
PromptRun-Orderly info now settled = record {
  inv = idle-Inv info now;
  exact = refl;
  orderly = inl (refl, inl refl);
}
PromptRun-Orderly info now {s} (promptly r st due prompt e) =
    let o = PromptRun-Orderly info now r in
    subst (Orderly s) (sym e) (record {
      inv = Step-Inv st due o.inv;
      exact = Step-exact st due o;
      orderly = Step-IsOrderly st due prompt o;
    })
