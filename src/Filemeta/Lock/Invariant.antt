-- ===== src/Filemeta/Lock/Invariant.antt =====
-- What every order of the threads' steps at a file keeps up.
use file_server.Base.{
  ℕ, ◌+◌, ◌%◌, ◌^◌, ◌<◌, ◌≡◌, refl, sym, subst, ◌⊎◌, inl, inr, Bool, true, false, ◌||◌, ◌&&◌, List,
  [], ◌∷◌, ◌++◌, arith, length, length-append, All, All-append, Bool-cases, ◌∙◌,
}
use file_server.Base.Word.{is_positive, add_word}
use file_server.Filemeta.{FileInfo, WaitJob, FileMeta}
use file_server.Filemeta.Lock.{
  must_wait, park, take_lock, release, signal_jobs, drop_unit, is_free, has_jobs,
}
use file_server.Filemeta.Lock.Batch.{signal_jobs-append, signal_jobs-count}
use file_server.Filemeta.Lock.System.{
  Sys, IsJob, Fits, Step, grant, wait, give_back, resume, Run, start, step, idle, Held, nobody,
  units, IsDue, after, take_units, give_unit,
}

-- Nobody waits, or a counter is positive as an `int`, or a signalled job has yet to run.
abbrev pub IsServed : Sys → Type 0
IsServed s =
    (s.file.jobs ≡ [])
    ⊎ (is_positive s.file.rcnt ≡ true)
    ⊎ (is_positive s.file.wcnt ≡ true)
    ⊎ (has_jobs s.woken ≡ true)

-- The readers' counter is what they hold. The writers' is that less what was held where a writer
-- took the lock over another one.
pub record Inv (s : Sys) (h : Held) : Type 0 where
  pub rcnt : s.file.rcnt ≡ h.readers
  pub readers_int : h.readers < 2 ^ 31
  pub writers_int : h.writers < 2 ^ 31
  pub wcnt_word : s.file.wcnt < 2 ^ 32
  pub lag : ℕ
  pub lag_int : lag < 2 ^ 31
  pub wcnt : add_word s.file.wcnt lag ≡ h.writers
  pub jobs_ok : All IsJob s.file.jobs
  pub woken_ok : All IsJob s.woken
  pub counted : s.file.wait_job_cnt ≡ length s.file.jobs % 2 ^ 32
  pub served : IsServed s

wait-Inv :
    (s : Sys) (h : Held) (j : WaitJob)
    → IsJob j
    → must_wait j.read s.file ≡ true
    → Inv s h
    → Inv (record s { file = park j s.file }) h
unfolding park must_wait
wait-Inv s h j ok busy v = record {
  rcnt = v.rcnt;
  readers_int = v.readers_int;
  writers_int = v.writers_int;
  wcnt_word = v.wcnt_word;
  lag = v.lag;
  lag_int = v.lag_int;
  wcnt = v.wcnt;
  jobs_ok = All-append IsJob s.file.jobs (j ∷ []) v.jobs_ok (ok, tt);
  woken_ok = v.woken_ok;
  counted = omega (arith, v.counted, length-append s.file.jobs (j ∷ []));
  served = ground (arith, v.served);
}

has_jobs-signal :
    (n : ℕ) (js : List WaitJob) → has_jobs js ≡ true → has_jobs (signal_jobs n js).woken ≡ true
unfolding signal_jobs
has_jobs-signal n [] h = h
has_jobs-signal n (j ∷ js) h = ground arith

has_jobs-append : (xs ys : List WaitJob) → has_jobs (xs ++ ys) ≡ (has_jobs xs || has_jobs ys)
has_jobs-append [] ys = refl
has_jobs-append (x ∷ xs) ys = refl

pub All-split {ℓ} :
    (P : WaitJob → Type ℓ) (xs ys : List WaitJob) → All P (xs ++ ys) → All P xs × All P ys
All-split P [] ys h = (tt, h)
All-split P (x ∷ xs) ys h = let (hx, hy) = All-split P xs ys h.1 in ((h.0, hx), hy)

signal_jobs-All {ℓ} :
    (P : WaitJob → Type ℓ) (n : ℕ) (js : List WaitJob)
    → All P js
    → All P (signal_jobs n js).woken × All P (signal_jobs n js).left
signal_jobs-All P n js h = All-split P _ _ (subst (All P) (sym (signal_jobs-append n js)) h)

-- The jobs that a release signals, and those that it leaves, waited before.
release-All {ℓ} :
    (P : WaitJob → Type ℓ) (read : Bool) (m : FileMeta)
    → All P m.jobs
    → All P (release read m).0.jobs × All P (release read m).1
unfolding release
release-All P read m h = elim (Bool-cases (is_free read m' && has_jobs m'.jobs)) [
  | inl e ↦ rw e (let (w, l) = signal_jobs-All P m'.wait_job_cnt m'.jobs (kept read) in (l, w))
  | inr e ↦ rw e (kept read, tt)
]
  where
    m' : FileMeta
    m' = drop_unit read m

    kept : (b : Bool) → All P (drop_unit b m).jobs
    kept true = h
    kept false = h

give_back-IsServed :
    (s : Sys) (read : Bool)
    → s.file.rcnt < 2 ^ 32
    → s.file.wcnt < 2 ^ 32
    → IsServed s
    → IsServed
        (record { file = (release read s.file).0; woken = s.woken ++ (release read s.file).1 })
unfolding release
give_back-IsServed s true r w v = ground (
  arith,
  has_jobs-signal s.file.wait_job_cnt s.file.jobs,
  has_jobs-append s.woken (signal_jobs s.file.wait_job_cnt s.file.jobs).woken,
  has_jobs-append s.woken [],
)
give_back-IsServed s false r w v = ground (
  arith,
  has_jobs-signal s.file.wait_job_cnt s.file.jobs,
  has_jobs-append s.woken (signal_jobs s.file.wait_job_cnt s.file.jobs).woken,
  has_jobs-append s.woken [],
)

release-counts :
    (read : Bool) (m : FileMeta)
    → m.wait_job_cnt ≡ length m.jobs % 2 ^ 32
    → let m' = (release read m).0 in
      (m'.rcnt ≡ (drop_unit read m).rcnt)
      × (m'.wcnt ≡ (drop_unit read m).wcnt)
      × (m'.wait_job_cnt ≡ length m'.jobs % 2 ^ 32)
unfolding release
release-counts true m e = ground (arith, signal_jobs-count m.wait_job_cnt m.jobs e)
release-counts false m e = ground (arith, signal_jobs-count m.wait_job_cnt m.jobs e)

give_back-Inv :
    (s : Sys) (h : Held) (read : Bool)
    → 0 < units read h
    → Inv s h
    → Inv
        (record { file = (release read s.file).0; woken = s.woken ++ (release read s.file).1 })
        (give_unit read h)
give_back-Inv s h true due v =
    let (r, w, c) = release-counts true s.file v.counted in
    let (left, woken) = release-All IsJob true s.file v.jobs_ok in
    record {
      rcnt = ground (arith, r, v.rcnt, v.readers_int);
      readers_int = omega (arith, v.readers_int);
      writers_int = v.writers_int;
      wcnt_word = omega (arith, w, v.wcnt_word);
      lag = v.lag;
      lag_int = v.lag_int;
      wcnt = rw w v.wcnt;
      jobs_ok = left;
      woken_ok = All-append IsJob s.woken _ v.woken_ok woken;
      counted = c;
      served =
          give_back-IsServed s true (omega (arith, v.rcnt, v.readers_int)) v.wcnt_word v.served;
    }
give_back-Inv s h false due v =
    let (r, w, c) = release-counts false s.file v.counted in
    let (left, woken) = release-All IsJob false s.file v.jobs_ok in
    record {
      rcnt = r ∙ v.rcnt;
      readers_int = v.readers_int;
      writers_int = omega (arith, v.writers_int);
      wcnt_word = omega (arith, w);
      lag = v.lag;
      lag_int = v.lag_int;
      wcnt = omega (arith, w, v.wcnt, v.wcnt_word, v.lag_int, due);
      jobs_ok = left;
      woken_ok = All-append IsJob s.woken _ v.woken_ok woken;
      counted = c;
      served =
          give_back-IsServed s false (omega (arith, v.rcnt, v.readers_int)) v.wcnt_word v.served;
    }

taken :
    (s : Sys) (h : Held) (j : WaitJob) (ws : List WaitJob)
    → IsJob j
    → Fits j h
    → All IsJob ws
    → Inv s h
    → Inv (record { file = take_lock j s.file; woken = ws }) (take_units j.read j.cnt h)
unfolding take_lock
taken s h j ws ok fits all v = elim (Bool-cases j.read) [
  | inl e ↦
      let sum : h.readers + j.cnt < 2 ^ 31 = subst (λ b. units b h + j.cnt < 2 ^ 31) e fits in
      rw (e, take_lock)
        (record {
          rcnt = omega (arith, v.rcnt, sum);
          readers_int = sum;
          writers_int = v.writers_int;
          wcnt_word = v.wcnt_word;
          lag = v.lag;
          lag_int = v.lag_int;
          wcnt = v.wcnt;
          jobs_ok = v.jobs_ok;
          woken_ok = all;
          counted = v.counted;
          served = inr (inl (ground (arith, v.rcnt, sum, ok.0)));
        })
  | inr e ↦
      let sum : h.writers + j.cnt < 2 ^ 31 = subst (λ b. units b h + j.cnt < 2 ^ 31) e fits in
      rw (e, take_lock)
        (record {
          rcnt = v.rcnt;
          readers_int = v.readers_int;
          writers_int = sum;
          wcnt_word = omega (arith, ok.1);
          lag = h.writers;
          lag_int = v.writers_int;
          wcnt = omega (arith, sum);
          jobs_ok = v.jobs_ok;
          woken_ok = all;
          counted = v.counted;
          served = inr (inr (inl (ground (arith, ok.0, ok.1))));
        })
]

pub Step-Inv : {s t : Sys} {h : Held} (st : Step s t) → IsDue st h → Inv s h → Inv t (after st h)
Step-Inv {s} {t} {h} (grant j free e) (ok, fits) v = rw e (taken s h j s.woken ok fits v.woken_ok v)
Step-Inv {s} {t} {h} (wait j busy e) ok v = rw e (wait-Inv s h j ok busy v)
Step-Inv {s} {t} {h} (give_back read e) due v = rw e (give_back-Inv s h read due v)
Step-Inv {s} {t} {h} (resume xs ys j w e) fits v =
    let (before, at) = All-split IsJob xs (j ∷ ys) (subst (All IsJob) w v.woken_ok) in
    rw e (taken s h j (xs ++ ys) at.0 fits (All-append IsJob xs ys before at.1) v)

pub idle-Inv : (info : FileInfo) (now : ℕ) → Inv (idle info now) nobody
idle-Inv info now = record {
  rcnt = refl;
  readers_int = omega arith;
  writers_int = omega arith;
  wcnt_word = omega arith;
  lag = 0;
  lag_int = omega arith;
  wcnt = refl;
  jobs_ok = tt;
  woken_ok = tt;
  counted = refl;
  served = inl refl;
}

pub Run-Inv : (info : FileInfo) (now : ℕ) {s : Sys} {h : Held} → Run (idle info now) s h → Inv s h
Run-Inv info now start = idle-Inv info now
Run-Inv info now {s} (step r st due e) =
    subst (Inv s) (sym e) (Step-Inv st due (Run-Inv info now r))
