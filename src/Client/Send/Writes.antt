-- ===== src/Client/Send/Writes.antt =====
-- The loop of `write_proc`.
use mathlib.Core.List.{append_assoc, append-nil}
use file_server.Base.{
  ℕ, zero, suc, ◌+◌, ◌-◌, ◌*◌, ◌^◌, ◌≤◌, ◌<◌, ◌≡◌, refl, ap, sym, ◌∙◌, true, false, List, [], ◌∷◌,
  ◌++◌, arith, length, All,
}
use file_server.Base.Word.{add_word, sub_word, is_positive}
use file_server.Contents.{slice, length-slice}
use file_server.Sock.{Sock}
use file_server.Sock.Transfer.{Enough}
use file_server.Msg.{Datamsg, transfer, file_stripe, op_write, IsWord}
use file_server.Msg.Exchange.Wire.{wire}
use file_server.Worker.{lock_units}
use file_server.Worker.Transfers.{stripe_len}
use file_server.Client.Send.{acknowledged, part, send_part, write_loop}
use file_server.Client.Send.Acks.{IsAck, acks, ack_cost, send_part-Acked}
use file_server.Client.Send.Uploads.{part-IsSendable, Uploads, Uploads-cons}

write_loop_step :
    (buf : ℕ → ℕ) (remote_fd n fileoffset bufoffset remain : ℕ) (s s' : Sock)
    → 0 < remain
    → fileoffset + remain < 2 ^ 31
    → bufoffset ≤ fileoffset
    → send_part
        (part op_write remote_fd fileoffset (stripe_len remain))
        (slice buf bufoffset (stripe_len remain))
        s
      ≡ acknowledged s'
    → write_loop buf remote_fd (suc n) fileoffset bufoffset remain s
      ≡ write_loop buf remote_fd n
          (fileoffset + stripe_len remain)
          (bufoffset + stripe_len remain)
          (remain - stripe_len remain)
          s'
unfolding write_loop
write_loop_step buf remote_fd n fileoffset bufoffset remain s s' p fits le sent =
    let some_left : is_positive remain ≡ true = ground arith in
    let next : add_word fileoffset (stripe_len remain) ≡ fileoffset + stripe_len remain =
      ground arith in
    let next' : add_word bufoffset (stripe_len remain) ≡ bufoffset + stripe_len remain =
      ground arith in
    let less : sub_word remain (stripe_len remain) ≡ remain - stripe_len remain = ground arith in
    rw (some_left, sent, next, next', less, write_loop) refl

write_loop-Uploads :
    (buf : ℕ → ℕ) (remote_fd base n fileoffset bufoffset remain : ℕ) (rs : List Datamsg)
    (rest : List ℕ) (spare more : ℕ) (s : Sock)
    → IsWord remote_fd
    → fileoffset ≡ base + bufoffset
    → remain ≤ n * file_stripe
    → n * file_stripe < remain + file_stripe
    → fileoffset + remain < 2 ^ 31
    → All IsAck rs
    → length rs ≡ n
    → s.incoming ≡ acks rs ++ rest
    → Enough (n * 32 + (remain + spare)) s.writes
    → Enough (ack_cost rs more) s.reads
    → Uploads op_write remote_fd buf base fileoffset remain rest n s
        (write_loop buf remote_fd (suc n) fileoffset bufoffset remain s)
unfolding write_loop
write_loop-Uploads buf remote_fd base zero fileoffset bufoffset remain [] rest spare more s word at
      low high fits ack l i ew er =
    let none_left : is_positive remain ≡ false = ground arith in
    rw none_left ([], refl, omega arith, refl, sym (append-nil s.outgoing), i)
write_loop-Uploads buf remote_fd base zero fileoffset bufoffset remain (r ∷ rs) rest spare more s
      word at low high fits ack l i ew er =
    absurd (omega arith)
write_loop-Uploads buf remote_fd base (suc n) fileoffset bufoffset remain [] rest spare more s word
      at low high fits ack l i ew er =
    absurd (omega arith)
write_loop-Uploads buf remote_fd base (suc n) fileoffset bufoffset remain (r ∷ rs) rest spare more s
      word at low high fits ack l i ew er =
    let len = stripe_len remain in
    let (s', sent, (out, i', ew', er')) =
      send_part-Acked (part op_write remote_fd fileoffset len) r (slice buf bufoffset len)
        (acks rs ++ rest) (n * 32 + (remain - len + spare)) (ack_cost rs more) s
        (part-IsSendable op_write remote_fd fileoffset len (slice buf bufoffset len) (omega arith)
          word (omega arith) (length-slice buf bufoffset len) (ground arith))
        ack.0 (i ∙ append_assoc (wire (transfer r)) (acks rs) rest)
        (record { positive = ew.positive; many = ground (arith, ew.many) }) er in
    rw
      (write_loop_step buf remote_fd (suc n) fileoffset bufoffset remain s s' (omega arith) fits
        (omega arith) sent)
      (Uploads-cons op_write remote_fd buf base fileoffset remain len n rest s s'
        (write_loop buf remote_fd (suc n) (fileoffset + len) (bufoffset + len) (remain - len) s')
        (ground arith) (ground arith) (ground arith)
        (out
          ∙ ap
              (λ o.
                s.outgoing
                ++ (wire (transfer (part op_write remote_fd fileoffset len)) ++ slice buf o len))
              (omega arith))
        (write_loop-Uploads buf remote_fd base n (fileoffset + len) (bufoffset + len) (remain - len)
          rs rest spare more s' word (omega arith) (ground arith) (ground arith) (ground arith)
          ack.1 (omega arith) i' ew' er'))

-- For `remain` bytes of the buffer for the file from `fileoffset` on, at least one and with an end
-- at most at 2 GB less a stripe, one reply without an error for each unit of the server's lock, and
-- a connection that takes enough, the loop of WRITE ends at its test, and has sent as many messages
-- as the lock has units; they tile the range, and bring the buffer's bytes in order.
pub write-Uploads :
    (buf : ℕ → ℕ) (remote_fd fileoffset remain : ℕ) (rs : List Datamsg) (rest : List ℕ)
    (spare more : ℕ) (s : Sock)
    → IsWord remote_fd
    → 0 < remain
    → fileoffset + remain + file_stripe ≤ 2 ^ 31
    → All IsAck rs
    → length rs ≡ lock_units remain
    → s.incoming ≡ acks rs ++ rest
    → Enough (lock_units remain * 32 + (remain + spare)) s.writes
    → Enough (ack_cost rs more) s.reads
    → Uploads op_write remote_fd buf fileoffset fileoffset remain rest
        (lock_units remain)
        s
        (write_loop buf remote_fd (suc (lock_units remain)) fileoffset 0 remain s)
write-Uploads buf remote_fd fileoffset remain rs rest spare more s word p small ack l i ew er =
    write_loop-Uploads buf remote_fd fileoffset (lock_units remain) fileoffset 0 remain rs rest
      spare more s word (omega arith) (ground arith) (ground arith) (omega arith) ack l i ew er
