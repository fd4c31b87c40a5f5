-- ===== src/Client/Procedures/Puts.antt =====
-- `put_proc` and `write_proc` with a server that answers without an error.
use Prim.Native.Nat.{min}
use mathlib.Core.List.{append_assoc}
use file_server.Base.{
  ℕ, suc, ◌+◌, ◌-◌, ◌*◌, ◌^◌, ◌≤◌, ◌<◌, ◌≡◌, refl, ap, subst, sym, ◌∙◌, true, false, List, ◌++◌,
  arith, ◌==◌, ◌||◌, length, All,
}
use file_server.Base.Word.{is_negative, is_positive}
use file_server.Sock.{Sock}
use file_server.Sock.Transfer.{Enough}
use file_server.Msg.{
  Commsg, Datamsg, command, op_put, op_write, op_put_reply, op_write_reply, file_stripe, IsWord,
}
use file_server.Msg.Exchange.Wire.{wire}
use file_server.Worker.{lock_units}
use file_server.Worker.Commands.{sized_reply, found_reply}
use file_server.Worker.Transfers.{rounds}
use file_server.Client.Fileio.{AioCalls}
use file_server.Client.Command.{accepted, retry, retry_cnt, range_command, sized_command}
use file_server.Client.Command.Accept.{
  command_answer, retry-accepted, range_command-IsSendable, sized_command-IsSendable,
}
use file_server.Client.Receive.{Ended, finished}
use file_server.Client.Receive.Places.{Serves}
use file_server.Client.Send.{put_loop, put_rounds, write_loop}
use file_server.Client.Send.Acks.{IsAck, acks, ack_cost}
use file_server.Client.Send.Uploads.{Parts, uploaded, Uploads}
use file_server.Client.Send.Puts.{put-Uploads}
use file_server.Client.Send.Writes.{write-Uploads}
use file_server.Client.Procedures.{put_proc, write_proc, asked_remain, max_buf_size}
use file_server.Client.Procedures.Downloads.{sized_reply-IsSendable}

put_proc-loop :
    (calls : ℕ → AioCalls) (opened : ℕ) (filename fileowner : List ℕ) (n : ℕ) (file buf : ℕ → ℕ)
    (i : ℕ) (s s' : Sock)
    → is_negative opened ≡ false
    → retry op_put retry_cnt (command (sized_command filename fileowner n)) s
      ≡ (accepted (command_answer (found_reply op_put_reply i)), s')
    → put_proc calls opened filename fileowner n file buf s
      ≡ put_loop calls file i (put_rounds n) 0 0 n buf s'
unfolding put_proc
put_proc-loop calls opened filename fileowner n file buf i s s' ok tried = rw (ok, tried) refl

write_proc-loop :
    (filename : List ℕ) (fileoffset buflen : ℕ) (buf : ℕ → ℕ) (i n remain : ℕ) (s s' : Sock)
    → (is_negative fileoffset || buflen == max_buf_size) ≡ false
    → asked_remain n fileoffset buflen ≡ remain
    → is_positive remain ≡ true
    → retry op_write retry_cnt (command (range_command op_write filename fileoffset buflen)) s
      ≡ (accepted (command_answer (sized_reply op_write_reply i n)), s')
    → write_proc filename fileoffset buflen buf s
      ≡ write_loop buf i (rounds remain) fileoffset 0 remain s'
unfolding write_proc
write_proc-loop filename fileoffset buflen buf i n remain s s' ok r some_left tried =
    rw (ok, tried, r, some_left) refl

-- The procedure ends at its loop's test. It sent its command and then messages, `count` in number,
-- that tile the range and bring its bytes.
abbrev pub Delivers :
    ℕ → Commsg → ℕ → (ℕ → ℕ) → ℕ → ℕ → ℕ → List ℕ → ℕ → Sock → Ended × Sock → Type 0
Delivers op c remote_fd content base offset remain rest count s r =
    (ds : List Datamsg) × (r.0 ≡ finished)
    × Parts op remote_fd offset remain ds
    × (length ds ≡ count)
    × (r.1.outgoing ≡ s.outgoing ++ (wire (command c) ++ uploaded content base ds))
    × (r.1.incoming ≡ rest)

Delivers-of_Uploads :
    (op : ℕ) (c : Commsg) (remote_fd : ℕ) (content : ℕ → ℕ) (base offset remain : ℕ) (rest : List ℕ)
    (count : ℕ) (s s1 : Sock) (r : Ended × Sock)
    → s1.outgoing ≡ s.outgoing ++ wire (command c)
    → Uploads op remote_fd content base offset remain rest count s1 r
    → Delivers op c remote_fd content base offset remain rest count s r
Delivers-of_Uploads op c remote_fd content base offset remain rest count s s1 r out
      (ds, e, parts, l, out', i) =
    (
      ds,
      e,
      parts,
      l,
      out'
          ∙ ap (λ o. o ++ uploaded content base ds) out
          ∙ append_assoc s.outgoing (wire (command c)) (uploaded content base ds),
      i,
    )

pub put_proc_puts :
    (calls : ℕ → AioCalls) (opened : ℕ) (filename fileowner : List ℕ) (n : ℕ) (file buf : ℕ → ℕ)
    (i : ℕ) (rs : List Datamsg) (rest : List ℕ) (spare more : ℕ) (s : Sock)
    → is_negative opened ≡ false
    → Serves calls
    → IsWord i
    → 0 < n
    → n + file_stripe ≤ 2 ^ 31
    → All IsAck rs
    → length rs ≡ lock_units n
    → s.incoming ≡ wire (command (found_reply op_put_reply i)) ++ (acks rs ++ rest)
    → Enough (436 + (0 + (lock_units n * 32 + (n + spare)))) s.writes
    → Enough (20 + (416 + (0 + ack_cost rs more))) s.reads
    → Delivers op_put
        (sized_command filename fileowner n)
        i
        file
        0
        0
        n
        rest
        (lock_units n)
        s
        (put_proc calls opened filename fileowner n file buf s)
put_proc_puts calls opened filename fileowner n file buf i rs rest spare more s ok serves word p
      small ack l inc ew er =
    let c = sized_command filename fileowner n in
    let (s1, tried, (out, i1, w1, r1)) =
      retry-accepted op_put 2 (command c) (found_reply op_put_reply i) (acks rs ++ rest)
        (lock_units n * 32 + (n + spare)) (ack_cost rs more) s
        (sized_command-IsSendable filename fileowner n (omega arith))
        (sized_reply-IsSendable op_put_reply i 0 (omega arith) word (omega arith)) refl inc ew er in
    rw (put_proc-loop calls opened filename fileowner n file buf i s s1 ok tried) (
      Delivers-of_Uploads op_put c i file 0 0 n rest (lock_units n) s s1
        (put_loop calls file i (put_rounds n) 0 0 n buf s1) out
        (put-Uploads calls file buf i n rs rest spare more s1 serves word p small ack l i1 w1 r1))

-- For a WRITE of 1 to 99,999 bytes at an offset inside of a file of at most 2 GB less a stripe,
-- where the server's reply with the file's index and size arrives and then one reply without an
-- error, and both kernels move something in each of enough calls, `write_proc` ends at its loop's
-- test, and has sent its command and exactly one data message, for the bytes of the range that lie
-- inside of the file, with these bytes from the front of the buffer.
pub write_proc_writes :
    (filename : List ℕ) (fileoffset buflen : ℕ) (buf : ℕ → ℕ) (i n : ℕ) (rs : List Datamsg)
    (rest : List ℕ) (spare more : ℕ) (s : Sock)
    → fileoffset < n
    → 0 < buflen
    → buflen < max_buf_size
    → n + file_stripe ≤ 2 ^ 31
    → IsWord i
    → All IsAck rs
    → length rs ≡ 1
    → s.incoming ≡ wire (command (sized_reply op_write_reply i n)) ++ (acks rs ++ rest)
    → Enough (436 + (0 + (1 * 32 + (min buflen (n - fileoffset) + spare)))) s.writes
    → Enough (20 + (416 + (0 + ack_cost rs more))) s.reads
    → Delivers op_write
        (range_command op_write filename fileoffset buflen)
        i
        buf
        fileoffset
        fileoffset
        (min buflen (n - fileoffset))
        rest
        1
        s
        (write_proc filename fileoffset buflen buf s)
write_proc_writes filename fileoffset buflen buf i n rs rest spare more s inside p few small word
      ack l inc ew er =
    let c = range_command op_write filename fileoffset buflen in
    let m = min buflen (n - fileoffset) in
    let remain : asked_remain n fileoffset buflen ≡ m = ground arith in
    let one : lock_units m ≡ 1 = ground arith in
    let fuel : rounds m ≡ suc (lock_units m) = ground arith in
    let (s1, tried, (out, i1, w1, r1)) =
      retry-accepted op_write 2 (command c) (sized_reply op_write_reply i n) (acks rs ++ rest)
        (1 * 32 + (m + spare)) (ack_cost rs more) s
        (range_command-IsSendable op_write filename fileoffset buflen (omega arith) (omega arith)
          (omega arith))
        (sized_reply-IsSendable op_write_reply i n (omega arith) word (omega arith)) refl inc ew
        er in
    let sent =
      write-Uploads buf i fileoffset m rs rest spare more s1 word (ground arith) (ground arith) ack
        (l ∙ sym one) i1 (subst (λ u. Enough (u * 32 + (m + spare)) s1.writes) (sym one) w1) r1 in
    subst (Delivers op_write c i buf fileoffset fileoffset m rest 1 s)
      (sym (
        write_proc-loop filename fileoffset buflen buf i n m s s1 (ground arith) remain
          (ground arith) tried
        ∙ ap (λ f. write_loop buf i f fileoffset 0 m s1) fuel))
      (subst
        (λ u.
          Delivers op_write c i buf fileoffset fileoffset m rest u s
            (write_loop buf i (suc (lock_units m)) fileoffset 0 m s1))
        one
        (Delivers-of_Uploads op_write c i buf fileoffset fileoffset m rest (lock_units m) s s1
          (write_loop buf i (suc (lock_units m)) fileoffset 0 m s1) out sent))
