-- ===== src/Worker/Commands.antt =====
-- file_server/src/server/wthr.c: the MSG_COMMAND branches of `read_proc`, `write_proc`, `put_proc`,
-- `get_proc` and `list_proc`.
pub mod Replies
pub mod Locking
pub mod Puts
use file_server.Base.{ℕ, Bool, true, false, Option, none, some, ◌==◌, not, if◌then◌else◌}
use file_server.Base.Word.{is_positive}
use file_server.Filemeta.{FileInfo, FileMeta, FileList}
use file_server.Filemeta.Index.{get_file_index_from_list, get_filemeta_by_idx, get_file_cnt}
use file_server.Filemeta.Lock.{WaitResult, refused, granted, parked, bad_index, wait_lock}
use file_server.Msg.{
  Commsg, Msg, command, err_none, err_nofile, err_unknown, op_read_reply, op_write_reply,
  op_put_reply, op_get_reply, op_list_reply,
}
use file_server.Worker.{
  Server, Outcome, reply, no_reply, sleeping, crash, lock_units, range_remain, command_reply,
}

-- The reply that names the file by its index, with its size where the branch sets it.
abbrev pub found_reply : ℕ → ℕ → Commsg
found_reply op fidx = record (command_reply op err_none) { sfilefd = fidx }

abbrev pub sized_reply : ℕ → ℕ → ℕ → Commsg
sized_reply op fidx filesize = record (found_reply op fidx) {
  fi = record ((command_reply op err_none).fi) { filesize = filesize };
}

-- What follows the call of `wait_lock`.
abbrev pub locked : ℕ → Commsg → Server → WaitResult → Outcome × Server
locked op ok s refused = (reply (command (command_reply op err_unknown)), s)
locked op ok s (granted l) = (reply (command ok), record s { list = l })
locked op ok s (parked l) = (sleeping (command ok), record s { list = l })
locked op ok s bad_index = (crash, s)

-- The test of `remain` and the lock, for `remain` bytes of file `fidx`.
unfoldable pub lock_range : ℕ → ℕ → ℕ → Bool → Commsg → Server → Outcome × Server
lock_range op fidx remain read ok s =
    if is_positive remain
    then locked op ok s (wait_lock fidx (lock_units remain) read s.list)
    else (reply (command (command_reply op err_nofile)), s)

-- The file that the index names, read through the pointer that `get_filemeta_by_idx` returns.
abbrev pub with_meta : ℕ → Server → (FileMeta → Outcome × Server) → Outcome × Server
with_meta fidx s f = elim (get_filemeta_by_idx fidx s.list) [
  | none ↦ (crash, s)
  | some none ↦ (crash, s)
  | some (some m) ↦ f m
]

unfoldable pub read_command : Commsg → Server → Outcome × Server
read_command c s =
    let (fidx?, l) = get_file_index_from_list c.fi false s.list in
    let s1 : Server = record s { list = l } in
    elim fidx? [
      | none ↦ (reply (command (command_reply op_read_reply err_nofile)), s1)
      | some fidx ↦ with_meta fidx s1 λ m.
          lock_range op_read_reply fidx (range_remain m.fi.filesize c.offset c.reqlen) true
            (sized_reply op_read_reply fidx m.fi.filesize) s1
    ]

unfoldable pub write_command : Commsg → Server → Outcome × Server
write_command c s =
    let (fidx?, l) = get_file_index_from_list c.fi false s.list in
    let s1 : Server = record s { list = l } in
    elim fidx? [
      | none ↦ (reply (command (command_reply op_write_reply err_nofile)), s1)
      | some fidx ↦ with_meta fidx s1 λ m.
          lock_range op_write_reply fidx (range_remain m.fi.filesize c.offset c.reqlen) false
            (sized_reply op_write_reply fidx m.fi.filesize) s1
    ]

-- The size that counts is the one of the message, also for a file that is in the list already.
unfoldable pub put_command : Commsg → Server → Outcome × Server
put_command c s =
    let (fidx?, l) = get_file_index_from_list c.fi true s.list in
    let s1 : Server = record s { list = l } in
    elim fidx? [
      | none ↦ (reply (command (command_reply op_put_reply err_unknown)), s1)
      | some fidx ↦
          lock_range op_put_reply fidx c.fi.filesize false (found_reply op_put_reply fidx) s1
    ]

unfoldable pub get_command : Commsg → Server → Outcome × Server
get_command c s =
    let (fidx?, l) = get_file_index_from_list c.fi false s.list in
    let s1 : Server = record s { list = l } in
    elim fidx? [
      | none ↦ (reply (command (command_reply op_get_reply err_nofile)), s1)
      | some fidx ↦ with_meta fidx s1 λ m.
          lock_range op_get_reply fidx m.fi.filesize true
            (sized_reply op_get_reply fidx m.fi.filesize) s1
    ]

-- The count goes into the union of the reply.
unfoldable pub list_command : Server → Outcome × Server
list_command s =
    if get_file_cnt s.list == 0
    then (reply (command (command_reply op_list_reply err_nofile)), s)
    else (reply (command (found_reply op_list_reply (get_file_cnt s.list))), s)
