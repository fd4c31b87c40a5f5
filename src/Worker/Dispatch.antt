-- ===== src/Worker/Dispatch.antt =====
-- file_server/src/server/wthr.c: the handlers, `list_proc`'s data branch, and `msg_proc`.
pub mod Listing
use file_server.Base.{
  ℕ, zero, suc, Bool, true, false, Option, none, some, List, [], ◌∷◌, ◌++◌, ◌==◌, if◌then◌else◌,
  ◌+◌, get_elem?,
}
use file_server.Base.Word.{mul_word, is_negative, lt_int, ge_int}
use file_server.Filemeta.{FileInfo, FileMeta, FileList}
use file_server.Filemeta.Index.{get_filemeta_by_idx}
use file_server.Msg.{
  Commsg, Datamsg, Msg, command, transfer, err_none, err_unknown, op_read, op_write, op_put, op_get,
  op_list, op_list_reply, sizeof_file_info, header,
}
use file_server.Worker.{Server, Kernel, Outcome, reply, no_reply, sleeping, crash, data_reply}
use file_server.Worker.Commands.{
  read_command, write_command, put_command, get_command, list_command,
}
use file_server.Worker.Transfers.{read_data, write_data, put_data, get_data}

unfoldable pub read_proc : Kernel → Msg → Server → Outcome × Server
read_proc k (command c) s = read_command c s
read_proc k (transfer d) s = read_data k d s

unfoldable pub write_proc : Kernel → Msg → Server → Outcome × Server
write_proc k (command c) s = write_command c s
write_proc k (transfer d) s = write_data k d s

unfoldable pub put_proc : Kernel → Msg → Server → Outcome × Server
put_proc k (command c) s = put_command c s
put_proc k (transfer d) s = put_data k d s

unfoldable pub get_proc : Kernel → Msg → Server → Outcome × Server
get_proc k (command c) s = get_command c s
get_proc k (transfer d) s = get_data k d s

-- The loop of `list_proc` from file `fidx` on, for `n` files more: the infos that are copied, or
-- `none` where `get_filemeta_by_idx` returns NULL and `memcpy` reads through it.
unfoldable pub copy_infos : FileList → ℕ → ℕ → Option (List FileInfo)
copy_infos l zero fidx = some []
copy_infos l (suc n) fidx =
    let more : Option (List FileInfo) = copy_infos l n (fidx + 1) in
    elim (get_filemeta_by_idx fidx l) [
      | none ↦ none
      | some none ↦ none
      | some (some m) ↦ elim more [ none ↦ none | some fs ↦ some (m.fi ∷ fs) ]
    ]

-- `list_proc` on a data message, with the stream for the reply. The number of files is the
-- client's; nothing is copied where it is negative as an `int`.
unfoldable pub list_data : Datamsg → Server → Outcome × Option (List FileInfo)
unfolding copy_infos
list_data d s =
    let n : ℕ = if is_negative d.sfilefd then 0 else d.sfilefd in
    let answer : Datamsg = data_reply op_list_reply err_none 0 in
    elim (copy_infos s.list n 0) [
      | none ↦ (crash, none)
      | some fs ↦ (
        reply (
            transfer (record answer {
              hd = record (answer.hd) { buflen = mul_word d.sfilefd sizeof_file_info };
            })),
        some fs,
      )
    ]

unfoldable pub list_proc : Msg → Server → Outcome × Server × Option (List FileInfo)
unfolding list_command list_data
list_proc (command c) s = let (o, s') = list_command s in (o, s', none)
list_proc (transfer d) s = let (o, fs) = list_data d s in (o, s, fs)

abbrev no_stream : Outcome × Server → Outcome × Server × Option (List FileInfo)
no_stream (o, s) = (o, s, none)

-- `msg_proc`: the outcome, the new state, and the stream that goes with the reply.
unfoldable pub msg_proc : Kernel → Msg → Server → Outcome × Server × Option (List FileInfo)
unfolding read_proc write_proc put_proc get_proc list_proc
msg_proc k m s =
    let op : ℕ = (header m).op in
    if op == op_read
    then no_stream (read_proc k m s)
    else if op == op_write
    then no_stream (write_proc k m s)
    else if op == op_put
    then no_stream (put_proc k m s)
    else if op == op_get
    then no_stream (get_proc k m s)
    else if op == op_list
    then list_proc m s
    else (no_reply, s, none)
