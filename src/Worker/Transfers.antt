-- ===== src/Worker/Transfers.antt =====
-- file_server/src/server/wthr.c: the MSG_DATA branches of the handlers.
pub mod Order
pub mod Stripes
pub mod Whole
use file_server.Base.{
  ℕ, zero, suc, ◌+◌, Bool, true, false, Option, none, some, List, [], ◌∷◌, ◌++◌, ◌/◌, if◌then◌else◌,
}
use file_server.Base.Word.{add_word, sub_word, mul_word, is_positive, is_negative, lt_int}
use file_server.Filemeta.{FileInfo, FileMeta, FileList}
use file_server.Filemeta.Index.{get_filemeta_by_idx}
use file_server.Filemeta.Lock.{get_fd_by_fidx}
use file_server.Msg.{
  Datamsg, Msg, transfer, err_none, err_unknown, op_read_reply, op_write_reply, op_put_reply,
  op_get_reply, file_stripe,
}
use file_server.Worker.{Aio, Server, Kernel, Outcome, reply, no_reply, sleeping, crash, data_reply}

-- How the loop over the stripes ends: by its test, by a transfer that was not taken, or, in the
-- model only, with its fuel used up.
pub data LoopEnd : Type 0 where
  finished : LoopEnd
  rejected : Datamsg → LoopEnd
  out_of_fuel : LoopEnd

-- One stripe: a read of `len` bytes at `offset`, answered by a message that brings them.
abbrev pub stripe : ℕ → ℕ → ℕ → ℕ → ℕ → Aio
stripe op sfilefd fd offset len = record {
  reads = true;
  fd = fd;
  len = len;
  offset = offset;
  answer = record (data_reply op err_none sfilefd) {
    hd = record ((data_reply op err_none sfilefd).hd) { buflen = len };
    offset = offset;
  };
}

abbrev pub with_err : ℕ → Datamsg → Datamsg
with_err e d = record d { hd = record (d.hd) { err = e } }

-- `sendlen`
abbrev pub stripe_len : ℕ → ℕ
stripe_len remain = if lt_int remain file_stripe then remain else file_stripe

-- The `while (remain>0)` loop of `read_proc` and `get_proc` from its `k`-th round on: the transfers
-- that were taken, and how it ends.
unfoldable pub stripe_loop : ℕ → ℕ → ℕ → (ℕ → Bool) → ℕ → ℕ → ℕ → ℕ → List Aio × LoopEnd
stripe_loop op sfilefd fd submits zero k offset remain = ([], out_of_fuel)
stripe_loop op sfilefd fd submits (suc fuel) k offset remain =
    let a : Aio = stripe op sfilefd fd offset (stripe_len remain) in
    let more : List Aio × LoopEnd =
      stripe_loop op sfilefd fd submits fuel (k + 1) (add_word offset a.len)
        (sub_word remain a.len) in
    if is_positive remain
    then (if submits k
        then (a ∷ more.0, more.1)
        else ([], rejected (with_err err_unknown a.answer)))
    else ([], finished)

-- One round for each whole stripe, one for the last, and one for the test.
abbrev pub rounds : ℕ → ℕ
rounds remain = suc (suc (remain / file_stripe))

abbrev pub loop_outcome : LoopEnd → Outcome
loop_outcome finished = no_reply
loop_outcome (rejected d) = reply (transfer d)
loop_outcome out_of_fuel = crash

abbrev pub submitted : Server → List Aio × LoopEnd → Outcome × Server
submitted s (taken, e) = (loop_outcome e, record s { aios = s.aios ++ taken })

-- The error reply is that of a GET here too.
unfoldable pub read_data : Kernel → Datamsg → Server → Outcome × Server
read_data k d s = elim (get_fd_by_fidx d.sfilefd true k.opened s.list) [
  | none ↦ (crash, s)
  | some (fd, l) ↦
      let s1 : Server = record s { list = l } in
      let run : List Aio × LoopEnd =
        stripe_loop op_read_reply d.sfilefd fd k.submits (rounds d.reqlen) 0 d.offset d.reqlen in
      if is_negative fd
      then (reply (transfer (data_reply op_get_reply err_unknown 0)), s1)
      else submitted s1 run
]

-- The size and the offset of the request play no part: the whole file is sent.
unfoldable pub get_data : Kernel → Datamsg → Server → Outcome × Server
get_data k d s = elim (get_fd_by_fidx d.sfilefd true k.opened s.list) [
  | none ↦ (crash, s)
  | some (fd, l) ↦
      let s1 : Server = record s { list = l } in
      if is_negative fd
      then (reply (transfer (data_reply op_get_reply err_unknown 0)), s1)
      else elim (get_filemeta_by_idx d.sfilefd l) [
        | none ↦ (crash, s1)
        | some none ↦ (crash, s1)
        | some (some m) ↦ submitted s1 (
            stripe_loop op_get_reply d.sfilefd fd k.submits (rounds m.fi.filesize) 0 0
              m.fi.filesize)
      ]
]

-- The single transfer of `write_proc` and `put_proc`: `buflen` bytes of the stream.
unfoldable pub store_data : ℕ → Kernel → Datamsg → Server → Outcome × Server
store_data op k d s = elim (get_fd_by_fidx d.sfilefd false k.opened s.list) [
  | none ↦ (crash, s)
  | some (fd, l) ↦
      let s1 : Server = record s { list = l } in
      let a : Aio = record {
        reads = false;
        fd = fd;
        len = d.hd.buflen;
        offset = d.offset;
        answer = data_reply op err_none d.sfilefd;
      } in
      if is_negative fd
      then (reply (transfer (data_reply op err_unknown d.sfilefd)), s1)
      else if k.submits 0
      then (no_reply, record s1 { aios = s1.aios ++ (a ∷ []) })
      else (reply (transfer (data_reply op err_unknown d.sfilefd)), s1)
]

unfoldable pub write_data : Kernel → Datamsg → Server → Outcome × Server
write_data = store_data op_write_reply

unfoldable pub put_data : Kernel → Datamsg → Server → Outcome × Server
put_data = store_data op_put_reply
