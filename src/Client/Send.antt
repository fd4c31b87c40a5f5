-- ===== src/Client/Send.antt =====
-- file_server/src/client/client_proc.c: the loops of `put_proc` and `write_proc`.
pub mod Acks
pub mod Uploads
pub mod Puts
pub mod Writes
use file_server.Base.{
  ℕ, zero, suc, ◌+◌, ◌/◌, Bool, true, false, Option, none, some, List, ◌==◌, if◌then◌else◌,
}
use file_server.Base.Word.{add_word, sub_word, is_positive, minus_one}
use file_server.Contents.{slice}
use file_server.Sock.{Sock}
use file_server.Msg.{Datamsg, transfer, blank_data, op_put, op_write, err_none, file_stripe}
use file_server.Msg.Exchange.{send_msg, recv_msg}
use file_server.Worker.{lock_units}
use file_server.Worker.Transfers.{stripe_len, rounds}
use file_server.Client.{Answer, Got, null, answer, fault, got_of}
use file_server.Client.Fileio.{AioCalls, FileEnd, aborted, failed, done, read_file}
use file_server.Client.Receive.{Ended, finished, stopped, crashed, out_of_fuel}

-- One message of the data: `len` bytes for the file from `offset` on.
abbrev pub part : ℕ → ℕ → ℕ → ℕ → Datamsg
part op remote_fd offset len = record blank_data {
  hd = record (blank_data.hd) { op = op; buflen = len };
  sfilefd = remote_fd;
  offset = offset;
}

-- A message with its stream, and its reply: the procedure ends, or the reply has no error.
pub data Sent : Type 0 where
  ended : Ended → Sock → Sent
  acknowledged : Sock → Sent

unfoldable pub send_part : Datamsg → List ℕ → Sock → Sent
send_part d bytes s =
    let (ret, _, s1) = send_msg (transfer d) (some bytes) s in
    let (r, s2) = recv_msg false s1 in
    if ret == minus_one then ended stopped s1 else elim (got_of r) [
      | null ↦ ended stopped s2
      | fault ↦ ended crashed s2
      | answer x ↦ if x.err == err_none then acknowledged s2 else ended stopped s2
    ]

-- `do { … } while(--datamsg_cnt>0)` of `put_proc`, for that many rounds, from round `k` on. The
-- kernel's answers to its `read_file` are `calls k`, and `buf` is the buffer of one stripe.
unfoldable pub put_loop :
    (ℕ → AioCalls) → (ℕ → ℕ) → ℕ → ℕ → ℕ → ℕ → ℕ → (ℕ → ℕ) → Sock → Ended × Sock
put_loop calls file remote_fd zero k offset remain buf s = (finished, s)
put_loop calls file remote_fd (suc cnt) k offset remain buf s =
    let sendlen : ℕ = stripe_len remain in
    let (e, buf') = read_file (calls k) file sendlen offset buf in
    elim e [
      | aborted ↦ (crashed, s)
      | failed ↦ (stopped, s)
      | done ↦ elim (send_part (part op_put remote_fd offset sendlen) (slice buf' 0 sendlen) s) [
        | ended e' s' ↦ (e', s')
        | acknowledged s' ↦
            put_loop calls file remote_fd cnt (k + 1) (add_word offset sendlen)
              (sub_word remain sendlen) buf' s'
      ]
    ]

-- `datamsg_cnt` is computed as the server computes the units of its lock. The body runs once even
-- where it is not positive.
abbrev pub put_rounds : ℕ → ℕ
put_rounds filesize = if is_positive (lock_units filesize) then lock_units filesize else 1

-- `while(remain > 0)` of `write_proc`, whose bytes are in `buf` from `bufoffset` on.
unfoldable pub write_loop : (ℕ → ℕ) → ℕ → ℕ → ℕ → ℕ → ℕ → Sock → Ended × Sock
write_loop buf remote_fd zero fileoffset bufoffset remain s = (out_of_fuel, s)
write_loop buf remote_fd (suc fuel) fileoffset bufoffset remain s =
    let sendlen : ℕ = stripe_len remain in
    if is_positive remain
    then elim (send_part (part op_write remote_fd fileoffset sendlen) (slice buf bufoffset sendlen)
        s) [
          | ended e s' ↦ (e, s')
          | acknowledged s' ↦
              write_loop buf remote_fd fuel (add_word fileoffset sendlen)
                (add_word bufoffset sendlen) (sub_word remain sendlen) s'
        ]
    else (finished, s)
