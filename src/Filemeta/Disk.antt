-- ===== src/Filemeta/Disk.antt =====
-- file_server/src/server/filemeta.c: `filelist_init`, the list read back from the meta file, and
-- `filelist_destory`.
pub mod Restart
use file_server.Base.{
  ℕ, zero, suc, ◌-◌, Bool, true, false, ◌&&◌, List, [], ◌∷◌, ◌++◌, ltb, if◌then◌else◌, replicate,
  length,
}
use file_server.Base.Word.{minus_one, is_negative}
use file_server.Filemeta.{FileInfo, WaitJob, FileMeta, MetaFile, FileList, max_file}

-- `sizeof(file_list_t)` on x86-64: 1000 slots of 496 bytes, two `int`s and a mutex of 40 bytes.
abbrev pub listsize : ℕ
listsize = 496_048

-- What the system calls of `filelist_init` return: whether `open`, `lseek` and `write` succeed, the
-- size that `stat` reports being that of the file.
pub record InitCalls : Type 0 where
  pub opens : Bool
  pub seeks : Bool
  pub writes : Bool

-- A slot of the array after its `memset`.
abbrev pub zero_meta : FileMeta
zero_meta = record {
  fi = record { filesize = 0; filename = replicate 300 0; fileowner = replicate 100 0 };
  rcnt = 0;
  wcnt = 0;
  rfd = 0;
  wfd = 0;
  jobs = [];
  wait_job_cnt = 0;
  timestamp = 0;
}

-- The body of the loop over the files: the lock's first state, no descriptor, no job.
abbrev pub reset_meta : ℕ → FileMeta → FileMeta
reset_meta now m = record m {
  rcnt = 0;
  wcnt = 0;
  rfd = minus_one;
  wfd = minus_one;
  jobs = [];
  wait_job_cnt = 0;
  timestamp = now;
}

-- The loop over the first `n` slots.
unfoldable pub reset_metas : ℕ → ℕ → List FileMeta → List FileMeta
reset_metas now zero arr = arr
reset_metas now (suc n) [] = []
reset_metas now (suc n) (m ∷ arr) = reset_meta now m ∷ reset_metas now n arr

-- How `filelist_init` ends: by `exit(1)`, with an access outside of the array, or with the list.
pub data Init : Type 0 where
  exited : Init
  outside : Init
  started : FileList → Init

-- The end of the field `cnt` in the image.
abbrev pub cnt_end : ℕ
cnt_end = 496_004

-- The write of one byte behind the end of a file that is too short: what the file does not have yet
-- reads as zeros.
abbrev pub extended : MetaFile → MetaFile
extended f = record {
  slots = f.slots ++ replicate (max_file - length f.slots) zero_meta;
  stored_cnt = if ltb f.size cnt_end then 0 else f.stored_cnt;
  size = listsize;
}

-- How often the loop over the files runs: `cnt` is an `int`.
abbrev pub loop_cnt : ℕ → ℕ
loop_cnt cnt = if is_negative cnt then 0 else cnt

-- `filelist_init` at time `now`.
unfoldable pub filelist_init : InitCalls → ℕ → MetaFile → Init
unfolding reset_metas
filelist_init calls now f =
    if calls.opens
    then (if ltb f.size listsize
        then (if calls.seeks && calls.writes
            then started
                (record { filearr = replicate max_file zero_meta; cnt = 0; file = extended f })
            else exited)
        else (if ltb (length f.slots) (loop_cnt f.stored_cnt)
            then outside
            else started (record {
              filearr = reset_metas now (loop_cnt f.stored_cnt) f.slots;
              cnt = f.stored_cnt;
              file = f;
            })))
    else exited

-- What `filelist_destory` does to one file under its lock: the descriptors that it closes, and the
-- jobs that it signals, in this order.
pub record Closed : Type 0 where
  pub closed : List ℕ
  pub signalled : List WaitJob

-- The files from the first on, `n` of them. No field of the list changes.
unfoldable pub close_metas : ℕ → List FileMeta → List Closed
close_metas zero arr = []
close_metas (suc n) [] = []
close_metas (suc n) (m ∷ arr) =
    record { closed = m.rfd ∷ m.wfd ∷ []; signalled = m.jobs } ∷ close_metas n arr

unfoldable pub filelist_destory : FileList → List Closed
filelist_destory l = close_metas l.cnt l.filearr
