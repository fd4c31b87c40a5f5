-- ===== src/Filemeta.antt =====
-- The data of file_server/src/server/filemeta.h and file_server/src/common/fileinfo.h: what the
-- server knows of each file, its lock, the jobs that wait for the lock, and the list of files.
pub mod Names
pub mod Index
pub mod Disk
pub mod Lock
use file_server.Base.{
  ℕ, zero, suc, ◌≤◌, Bool, true, false, List, [], ◌∷◌, map, take, length, if◌then◌else◌, ◌==◌,
}
use file_server.Base.Word.{minus_one}

-- `MAX_FILE` of config.h
abbrev pub max_file : ℕ
max_file = 1000

-- `file_info_t`. The two names are the bytes of their arrays.
pub record FileInfo : Type 0 where
  pub filesize : ℕ
  pub filename : List ℕ
  pub fileowner : List ℕ

-- `wait_job_t`: who waits, for reading or for writing, and how many units it takes.
-- Its condition variable is the job itself, and its `next` is the list that holds it.
pub record WaitJob : Type 0 where
  pub read : Bool
  pub cnt : ℕ

-- `file_meta_t`. The list `jobs` is the chain from `head` to `tail`: `head == NULL` is `[]`, and
-- `tail` is the last node. The counters and descriptors are `int`s, kept as their bit patterns.
pub record FileMeta : Type 0 where
  pub fi : FileInfo
  pub rcnt : ℕ
  pub wcnt : ℕ
  pub rfd : ℕ
  pub wfd : ℕ
  pub jobs : List WaitJob
  pub wait_job_cnt : ℕ
  pub timestamp : ℕ

-- The meta file on disk: the image of `file_list_t`, as the slots that it has and its count, and its
-- size in bytes.
pub record MetaFile : Type 0 where
  pub slots : List FileMeta
  pub stored_cnt : ℕ
  pub size : ℕ

-- `file_list_t`, with the file that its `fd` is open on.
pub record FileList : Type 0 where
  pub filearr : List FileMeta
  pub cnt : ℕ
  pub file : MetaFile

-- `strcmp(a, b) == 0` on two arrays. The end of an array counts as its terminator; the code reads on
-- into the owner where an array of 300 bytes has none.
unfoldable pub str_eq : List ℕ → List ℕ → Bool
str_eq [] [] = true
str_eq [] (y ∷ ys) = y == 0
str_eq (x ∷ xs) [] = x == 0
str_eq (x ∷ xs) (y ∷ ys) =
    let rest = str_eq xs ys in if x == y then (if x == 0 then true else rest) else false

-- The text of a character array: its bytes up to the first zero.
abbrev pub c_str : List ℕ → List ℕ
c_str [] = []
c_str (x ∷ xs) = if x == 0 then [] else x ∷ c_str xs

-- What the list says of its files, oldest first.
abbrev pub infos : FileList → List FileInfo
infos l = map (λ m. m.fi) (take l.cnt l.filearr)

-- The array has all its slots, and the last one is never taken into use.
pub record IsValid (l : FileList) : Type 0 where
  pub slots : max_file ≤ length l.filearr
  pub within : suc l.cnt ≤ max_file
