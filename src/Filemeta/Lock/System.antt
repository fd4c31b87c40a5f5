-- ===== src/Filemeta/Lock/System.antt =====
-- The threads at one file. A state is the file's record and the jobs that were signalled and have
-- not yet run; each step is what one thread does while it holds the file's mutex, and any thread
-- that is not asleep may be next. `cnt` is how many units the lock is taken for. The steps are those
-- of the code, whoever calls it; what a caller holds and gives back is counted beside them.
use file_server.Base.{ℕ, ◌+◌, ◌^◌, ◌-◌, ◌<◌, ◌≡◌, Bool, true, false, List, [], ◌∷◌, ◌++◌}
use file_server.Base.Word.{minus_one}
use file_server.Filemeta.{FileInfo, WaitJob, FileMeta}
use file_server.Filemeta.Lock.{must_wait, park, take_lock, release}

pub record Sys : Type 0 where
  pub file : FileMeta
  pub woken : List WaitJob

pub data Step (s t : Sys) : Type 0 where
  grant :
      (j : WaitJob)
      → must_wait j.read s.file ≡ false
      → t ≡ record s { file = take_lock j s.file }
      → Step s t
  wait :
      (j : WaitJob)
      → must_wait j.read s.file ≡ true
      → t ≡ record s { file = park j s.file }
      → Step s t
  give_back :
      (read : Bool)
      → t ≡ record { file = (release read s.file).0; woken = s.woken ++ (release read s.file).1 }
      → Step s t
  resume :
      (xs ys : List WaitJob) (j : WaitJob)
      → s.woken ≡ xs ++ (j ∷ ys)
      → t ≡ record { file = take_lock j s.file; woken = xs ++ ys }
      → Step s t

pub data Reach (s : Sys) : Sys → Type 0 where
  here : Reach s s
  next : {t u : Sys} → Reach s t → Step t u → Reach s u

-- The units that callers have taken and not given back, which the code does not count by itself.
pub record Held : Type 0 where
  pub readers : ℕ
  pub writers : ℕ

abbrev pub nobody : Held
nobody = record { readers = 0; writers = 0 }

abbrev pub units : Bool → Held → ℕ
units true h = h.readers
units false h = h.writers

abbrev pub take_units : Bool → ℕ → Held → Held
take_units true n h = record h { readers = h.readers + n }
take_units false n h = record h { writers = h.writers + n }

abbrev pub give_unit : Bool → Held → Held
give_unit true h = record h { readers = h.readers - 1 }
give_unit false h = record h { writers = h.writers - 1 }

-- What is held after a step.
abbrev pub after : {s t : Sys} → Step s t → Held → Held
after (grant j _ _) h = take_units j.read j.cnt h
after (wait j _ _) h = h
after (give_back read _) h = give_unit read h
after (resume _ _ j _ _) h = take_units j.read j.cnt h

-- A caller takes at least one unit, and an `int` can hold the count.
abbrev pub IsJob : WaitJob → Type 0
IsJob j = (0 < j.cnt) × (j.cnt < 2 ^ 31)

-- All units that are held on its side fit an `int`.
abbrev pub Fits : WaitJob → Held → Type 0
Fits j h = units j.read h + j.cnt < 2 ^ 31

-- What the callers have to keep to: a request is for at least one unit, what is held fits an `int`,
-- and a unit that is given back was taken.
abbrev pub IsDue : {s t : Sys} → Step s t → Held → Type 0
IsDue (grant j _ _) h = IsJob j × Fits j h
IsDue (wait j _ _) h = IsJob j
IsDue (give_back read _) h = 0 < units read h
IsDue (resume _ _ j _ _) h = Fits j h

-- Steps of callers that keep to it, in any order.
pub data Run (s : Sys) : Sys → Held → Type 0 where
  start : Run s s nobody
  step :
      {t u : Sys} {h k : Held}
      → Run s t h
      → (st : Step t u) → IsDue st h
      → k ≡ after st h
      → Run s u k

-- A file that nobody uses, as `add_file_to_list` and `filelist_init` leave it.
abbrev pub idle : FileInfo → ℕ → Sys
idle info now = record {
  file = record {
    fi = info;
    rcnt = 0;
    wcnt = 0;
    rfd = minus_one;
    wfd = minus_one;
    jobs = [];
    wait_job_cnt = 0;
    timestamp = now;
  };
  woken = [];
}
