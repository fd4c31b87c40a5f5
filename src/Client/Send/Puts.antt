-- ===== src/Client/Send/Puts.antt =====
-- The loop of `put_proc`.
use mathlib.Core.List.{append_assoc, append-nil}
use file_server.Base.{
  ℕ, zero, suc, ◌+◌, ◌-◌, ◌*◌, ◌^◌, ◌≤◌, ◌<◌, ◌≡◌, refl, ap, sym, ◌∙◌, true, List, [], ◌∷◌, ◌++◌,
  arith, length, All,
}
use file_server.Base.Word.{add_word, sub_word}
use file_server.Contents.{slice, within, slice_ext, length-slice, copied}
use file_server.Sock.{Sock}
use file_server.Sock.Transfer.{Enough}
use file_server.Msg.{Datamsg, transfer, file_stripe, op_put, IsWord}
use file_server.Msg.Exchange.Wire.{wire}
use file_server.Worker.{lock_units}
use file_server.Worker.Transfers.{stripe_len}
use file_server.Client.Fileio.{AioCalls, done, read_file}
use file_server.Client.Fileio.Moves.{IsServed, read_file-copied}
use file_server.Client.Receive.Places.{Serves}
use file_server.Client.Send.{acknowledged, part, send_part, put_loop, put_rounds}
use file_server.Client.Send.Acks.{IsAck, acks, ack_cost, send_part-Acked}
use file_server.Client.Send.Uploads.{part-IsSendable, Uploads, Uploads-cons}

read_stripe :
    (calls : AioCalls) (file buf : ℕ → ℕ) (offset len : ℕ)
    → 0 < len
    → len ≤ file_stripe
    → offset + len < 2 ^ 31
    → IsServed len calls
    → let (e, buf') = read_file calls file len offset buf in
      (e ≡ done) × (slice buf' 0 len ≡ slice file offset len)
read_stripe calls file buf offset len p stripe fits served =
    let read = λ (q : ℕ).
      read_file-copied calls file len offset buf q p (omega (arith, stripe)) fits served in
    ((read 0).0, slice_ext _ file 0 offset len (λ q lt. (read (0 + q)).1 ∙ inside q lt))
  where
    inside : (q : ℕ) → q < len → copied file offset 0 len buf (0 + q) ≡ file (offset + q)
    inside q lt =
        let at : within 0 len (0 + q) ≡ true = ground arith in rw at (ap file (omega arith))

put_loop_step :
    (calls : ℕ → AioCalls) (file : ℕ → ℕ) (remote_fd n k offset remain : ℕ) (buf : ℕ → ℕ)
    (s s' : Sock)
    → Serves calls
    → 0 < remain
    → offset + remain < 2 ^ 31
    → send_part
        (part op_put remote_fd offset (stripe_len remain))
        (slice file offset (stripe_len remain))
        s
      ≡ acknowledged s'
    → put_loop calls file remote_fd (suc n) k offset remain buf s
      ≡ put_loop calls file remote_fd n
          (k + 1)
          (offset + stripe_len remain)
          (remain - stripe_len remain)
          (read_file (calls k) file (stripe_len remain) offset buf).1
          s'
unfolding put_loop
put_loop_step calls file remote_fd n k offset remain buf s s' serves p fits sent =
    let (ok, bytes) =
      read_stripe (calls k) file buf offset (stripe_len remain) (ground arith) (ground arith)
        (ground arith) (serves k (stripe_len remain)) in
    let next : add_word offset (stripe_len remain) ≡ offset + stripe_len remain = ground arith in
    let less : sub_word remain (stripe_len remain) ≡ remain - stripe_len remain = ground arith in
    rw (ok, bytes, sent, next, less, put_loop) refl

put_loop-Uploads :
    (calls : ℕ → AioCalls) (file : ℕ → ℕ) (remote_fd n k offset remain : ℕ) (buf : ℕ → ℕ)
    (rs : List Datamsg) (rest : List ℕ) (spare more : ℕ) (s : Sock)
    → Serves calls
    → IsWord remote_fd
    → remain ≤ n * file_stripe
    → n * file_stripe < remain + file_stripe
    → offset + remain < 2 ^ 31
    → All IsAck rs
    → length rs ≡ n
    → s.incoming ≡ acks rs ++ rest
    → Enough (n * 32 + (remain + spare)) s.writes
    → Enough (ack_cost rs more) s.reads
    → Uploads op_put remote_fd file 0 offset remain rest n s
        (put_loop calls file remote_fd n k offset remain buf s)
unfolding put_loop
put_loop-Uploads calls file remote_fd zero k offset remain buf [] rest spare more s serves word low
      high fits ack l i ew er =
    ([], refl, omega arith, refl, sym (append-nil s.outgoing), i)
put_loop-Uploads calls file remote_fd zero k offset remain buf (r ∷ rs) rest spare more s serves
      word low high fits ack l i ew er =
    absurd (omega arith)
put_loop-Uploads calls file remote_fd (suc n) k offset remain buf [] rest spare more s serves word
      low high fits ack l i ew er =
    absurd (omega arith)
put_loop-Uploads calls file remote_fd (suc n) k offset remain buf (r ∷ rs) rest spare more s serves
      word low high fits ack l i ew er =
    let len = stripe_len remain in
    let (s', sent, (out, i', ew', er')) =
      send_part-Acked (part op_put remote_fd offset len) r (slice file offset len) (acks rs ++ rest)
        (n * 32 + (remain - len + spare)) (ack_cost rs more) s
        (part-IsSendable op_put remote_fd offset len (slice file offset len) (omega arith) word
          (omega arith) (length-slice file offset len) (ground arith))
        ack.0 (i ∙ append_assoc (wire (transfer r)) (acks rs) rest)
        (record { positive = ew.positive; many = ground (arith, ew.many) }) er in
    rw
      (put_loop_step calls file remote_fd n k offset remain buf s s' serves (omega arith) fits sent)
      (Uploads-cons op_put remote_fd file 0 offset remain len n rest s s'
        (put_loop calls file remote_fd n (k + 1) (offset + len) (remain - len)
          (read_file (calls k) file len offset buf).1 s')
        (ground arith) (ground arith) (ground arith)
        (out
          ∙ ap
              (λ o.
                s.outgoing
                ++ (wire (transfer (part op_put remote_fd offset len)) ++ slice file o len))
              (omega arith))
        (put_loop-Uploads calls file remote_fd n (k + 1) (offset + len) (remain - len) _ rs rest
          spare more s' serves word (ground arith) (ground arith) (ground arith) ack.1 (omega arith)
          i' ew' er'))

-- For a file of at least one byte and at most 2 GB less a stripe, a kernel that serves each
-- `read_file`, one reply without an error for each unit of the lock, and a connection that takes
-- enough, the loop of PUT ends at its test, and has sent as many messages as the server's lock has
-- units; they tile the file, and each brings the file's bytes of its range.
pub put-Uploads :
    (calls : ℕ → AioCalls) (file buf : ℕ → ℕ) (remote_fd filesize : ℕ) (rs : List Datamsg)
    (rest : List ℕ) (spare more : ℕ) (s : Sock)
    → Serves calls
    → IsWord remote_fd
    → 0 < filesize
    → filesize + file_stripe ≤ 2 ^ 31
    → All IsAck rs
    → length rs ≡ lock_units filesize
    → s.incoming ≡ acks rs ++ rest
    → Enough (lock_units filesize * 32 + (filesize + spare)) s.writes
    → Enough (ack_cost rs more) s.reads
    → Uploads op_put remote_fd file 0 0 filesize rest
        (lock_units filesize)
        s
        (put_loop calls file remote_fd (put_rounds filesize) 0 0 filesize buf s)
put-Uploads calls file buf remote_fd filesize rs rest spare more s serves word p small ack l i ew
      er =
    let count : put_rounds filesize ≡ lock_units filesize = ground arith in
    rw count (
      put_loop-Uploads calls file remote_fd (lock_units filesize) 0 0 filesize buf rs rest spare
        more s serves word (ground arith) (ground arith) (omega arith) ack l i ew er)
