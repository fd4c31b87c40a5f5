-- ===== src/Filemeta/Index.antt =====
-- file_server/src/server/filemeta.c: `add_file_to_list`, `get_file_index_from_list`,
-- `get_filemeta_by_idx` and `get_file_cnt`. Each runs under `lmtx`, so it is one step.
pub mod Catalog
pub mod Refine
pub mod Stable
use file_server.Base.{
  ℕ, zero, suc, ◌+◌, ◌-◌, Bool, Option, none, some, List, [], ◌∷◌, ◌==◌, if◌then◌else◌, get_elem?,
  set,
}
use file_server.Base.Word.{minus_one, ge_int, is_negative}
use file_server.Filemeta.{FileInfo, FileMeta, MetaFile, FileList, max_file, str_eq}

-- `pwrite` of one slot, and of the count, into the meta file.
pub data DiskWrite : Type 0 where
  write_slot : ℕ → FileMeta → DiskWrite
  write_cnt : ℕ → DiskWrite

unfoldable pub pwrite : MetaFile → DiskWrite → MetaFile
pwrite f (write_slot i m) = record f { slots = set f.slots i m }
pwrite f (write_cnt n) = record f { stored_cnt = n }

-- The slot that `add_file_to_list` fills: it holds the lock's first state, and keeps the time stamp
-- that is there.
abbrev pub new_meta : ℕ → FileInfo → FileMeta
new_meta stamp info = record {
  fi = info;
  rcnt = 0;
  wcnt = 0;
  rfd = minus_one;
  wfd = minus_one;
  jobs = [];
  wait_job_cnt = 0;
  timestamp = stamp;
}

abbrev pub stamp_at : List FileMeta → ℕ → ℕ
stamp_at arr i = elim (get_elem? arr i) [ none ↦ 0 | some m ↦ m.timestamp ]

unfoldable pub pwrites : MetaFile → List DiskWrite → MetaFile
unfolding pwrite
pwrites f [] = f
pwrites f (w ∷ ws) = pwrites (pwrite f w) ws

-- The writes of `add_file_to_list`, in their order: the slot, then the count.
abbrev pub add_writes : ℕ → FileMeta → List DiskWrite
add_writes i m = write_slot i m ∷ write_cnt (i + 1) ∷ []

-- `add_file_to_list`. `none` is its -1.
unfoldable pub add_file_to_list : FileInfo → FileList → Option ℕ × FileList
unfolding pwrites
add_file_to_list info l =
    let slot : FileMeta = new_meta (stamp_at l.filearr l.cnt) info in
    let file : MetaFile = pwrites l.file (add_writes l.cnt slot) in
    if l.cnt == max_file - 1
    then (none, l)
    else (some l.cnt, record { filearr = set l.filearr l.cnt slot; cnt = l.cnt + 1; file = file })

-- The search loop over the `n` slots from slot `i` on: the index at `break`, or the end.
unfoldable pub find_index : List ℕ → List FileMeta → ℕ → ℕ → ℕ
find_index name arr zero i = i
find_index name [] (suc n) i = i + suc n
find_index name (m ∷ arr) (suc n) i =
    let rest = find_index name arr n (i + 1) in if str_eq m.fi.filename name then i else rest

-- `get_file_index_from_list`. `none` is its -1.
unfoldable pub get_file_index_from_list : FileInfo → Bool → FileList → Option ℕ × FileList
unfolding find_index add_file_to_list
get_file_index_from_list info add_if_nonexist l =
    let i : ℕ = find_index info.filename l.filearr l.cnt 0 in
    if i == l.cnt
    then (if add_if_nonexist then add_file_to_list info l else (none, l))
    else (some i, l)

-- A read of the array through an `int` index that passed its guard: `some none` is the refusal,
-- and `none` an access outside of the array.
unfoldable pub get_filemeta_by_idx : ℕ → FileList → Option (Option FileMeta)
get_filemeta_by_idx fidx l =
    if ge_int fidx l.cnt
    then some none
    else if is_negative fidx
    then none
    else elim (get_elem? l.filearr fidx) [ none ↦ none | some m ↦ some (some m) ]

unfoldable pub get_file_cnt : FileList → ℕ
get_file_cnt l = l.cnt
