-- ===== src/Client/Procedures/Downloads.antt =====
-- `get_proc` and `read_proc` with a server that answers without an error.
use Prim.Native.Nat.{min}
use mathlib.Core.List.{Permᴰ, append_assoc}
use file_server.Base.{
  ℕ, suc, ◌+◌, ◌-◌, ◌^◌, ◌≤◌, ◌<◌, ◌≡◌, refl, ap, subst, ◌∙◌, true, false, none, List, [], ◌++◌,
  arith, ◌==◌, ◌||◌, length, All, ltb, if◌then◌else◌,
}
use file_server.Base.Word.{minus_one, is_negative, is_positive}
use file_server.Sock.{Sock}
use file_server.Sock.Transfer.{Enough}
use file_server.Msg.{
  Datamsg, command, transfer, op_get, op_read, op_get_reply, op_read_reply, IsWord,
}
use file_server.Msg.Exchange.{send_msg}
use file_server.Msg.Exchange.Wire.{IsSendable, wire, command_header-IsHeader}
use file_server.Msg.Exchange.Sides.{send_msg-bare, send_msg-SameIn}
use file_server.Worker.{Aio}
use file_server.Worker.Commands.{sized_reply}
use file_server.Worker.Transfers.Stripes.{Tiles}
use file_server.Client.{Answer}
use file_server.Client.Fileio.{AioCalls}
use file_server.Client.Command.{
  accepted, retry, retry_cnt, named_command, range_command, data_request,
}
use file_server.Client.Command.Accept.{
  command_answer, retry-accepted, range_command-IsSendable, data_request-IsSendable,
}
use file_server.Client.Receive.{finished, Stepped, receive_loop, get_round, read_round}
use file_server.Client.Receive.Outgoing.{receive_loop-outgoing}
use file_server.Client.Receive.Chunks.{IsAnswer, sent_all, cost}
use file_server.Client.Receive.Places.{Serves}
use file_server.Client.Receive.Whole.{get_receives, read_receives}
use file_server.Client.Procedures.{fetch, get_proc, read_proc, asked_remain, max_buf_size}

pub sized_reply-IsSendable :
    (op i filesize : ℕ)
    → IsWord op
    → IsWord i
    → IsWord filesize
    → IsSendable (command (sized_reply op i filesize)) []
sized_reply-IsSendable op i filesize op_word i_word word = record {
  fields = record {
    hd = command_header-IsHeader op op_word;
    sfilefd = i_word;
    filesize = word;
    filename = refl;
    fileowner = refl;
    offset = omega arith;
    reqlen = omega arith;
  };
  layout = (refl, refl);
  stream = refl;
  small = omega arith;
}

-- A request that is sent leads to the loop.
abbrev Fetched : (ℕ → ℕ → Answer → (ℕ → ℕ) → Stepped) → Datamsg → ℕ → (ℕ → ℕ) → Sock → Sock → Type 0
Fetched round request remain bytes s s1 =
    (fetch round request remain bytes s
      ≡ receive_loop round (suc (length s1.incoming)) 0 remain bytes s1)
    × (s1.incoming ≡ s.incoming)
    × (s1.reads ≡ s.reads)
    × (s1.outgoing ≡ s.outgoing ++ wire (transfer request))

fetch-Fetched :
    (round : ℕ → ℕ → Answer → (ℕ → ℕ) → Stepped) (request : Datamsg) (remain spare : ℕ)
    (bytes : ℕ → ℕ) (s : Sock)
    → IsSendable (transfer request) []
    → Enough (request.hd.msglen + (request.hd.buflen + spare)) s.writes
    → (s1 : Sock) × Fetched round request remain bytes s s1
unfolding fetch
fetch-Fetched round request remain spare bytes s v e =
    let (ret, _, out, _) = send_msg-bare (transfer request) spare s v e in
    let (same, reads) = send_msg-SameIn (transfer request) none s in
    let sent : ((send_msg (transfer request) none s).0 == minus_one) ≡ false =
      ground (arith, ret) in
    ((send_msg (transfer request) none s).2, (rw sent refl, same, reads, out))

get_proc-fetch :
    (calls : ℕ → AioCalls) (opened : ℕ) (filename : List ℕ) (old : ℕ → ℕ) (i n : ℕ) (s s' : Sock)
    → is_negative opened ≡ false
    → retry op_get retry_cnt (command (named_command op_get filename)) s
      ≡ (accepted (command_answer (sized_reply op_get_reply i n)), s')
    → get_proc calls opened filename old s
      ≡ fetch (get_round calls) (data_request op_get i 0 n) n old s'
unfolding get_proc
get_proc-fetch calls opened filename old i n s s' ok tried = rw (ok, tried) refl

read_proc-fetch :
    (filename : List ℕ) (fileoffset buflen : ℕ) (old : ℕ → ℕ) (i n remain : ℕ) (s s' : Sock)
    → (is_negative fileoffset || is_negative buflen || ltb max_buf_size buflen) ≡ false
    → is_positive remain ≡ true
    → asked_remain n fileoffset buflen ≡ remain
    → retry op_read retry_cnt (command (range_command op_read filename fileoffset buflen)) s
      ≡ (accepted (command_answer (sized_reply op_read_reply i n)), s')
    → read_proc filename fileoffset buflen old s
      ≡ fetch (read_round fileoffset) (data_request op_read i fileoffset remain) remain old s'
unfolding read_proc
read_proc-fetch filename fileoffset buflen old i n remain s s' ok some_left r tried =
    rw (ok, tried, r, some_left) refl

module _ (content : ℕ → ℕ) where
  pub get_proc_gets :
      (calls : ℕ → AioCalls) (opened : ℕ) (filename : List ℕ) (i n : ℕ) (xs ys : List Aio)
      (old : ℕ → ℕ) (rest : List ℕ) (spare more : ℕ) (s : Sock) (q : ℕ)
      → is_negative opened ≡ false
      → Serves calls
      → Permᴰ xs ys
      → Tiles 0 n xs
      → All IsAnswer xs
      → IsWord i
      → n < 2 ^ 31
      → s.incoming ≡ wire (command (sized_reply op_get_reply i n)) ++ (sent_all content ys ++ rest)
      → Enough (436 + (0 + (32 + (0 + spare)))) s.writes
      → Enough (20 + (416 + (0 + cost ys more))) s.reads
      → let (e, file, s') = get_proc calls opened filename old s in
        (e ≡ finished)
        × (file q ≡ (if ltb q n then content q else old q))
        × (s'.incoming ≡ rest)
        × (s'.outgoing
            ≡ s.outgoing
              ++ (wire (command (named_command op_get filename))
                  ++ wire (transfer (data_request op_get i 0 n))))
  get_proc_gets calls opened filename i n xs ys old rest spare more s q ok serves order tiles v word
        small inc ew er =
      let (s1, tried, (out, i1, w1, r1)) =
        retry-accepted op_get 2 (command (named_command op_get filename))
          (sized_reply op_get_reply i n) (sent_all content ys ++ rest) (32 + (0 + spare))
          (cost ys more) s
          (range_command-IsSendable op_get filename 0 0 (omega arith) (omega arith) (omega arith))
          (sized_reply-IsSendable op_get_reply i n (omega arith) word (omega arith)) refl inc ew
          er in
      let (s2, (runs, i2, r2, out2)) =
        fetch-Fetched (get_round calls) (data_request op_get i 0 n) n spare old s1
          (data_request-IsSendable op_get i 0 n (omega arith) word (omega arith) (omega arith))
          w1 in
      let (done, filled, left, _) =
        get_receives content calls n xs ys old rest more s2 q serves order tiles v small (i2 ∙ i1)
          (rw r2 r1) in
      rw (get_proc-fetch calls opened filename old i n s s1 ok tried, runs)
        (
          done,
          filled,
          left,
          receive_loop-outgoing (get_round calls) (suc (length s2.incoming)) 0 n old s2
              ∙ out2
              ∙ ap (λ o. o ++ wire (transfer (data_request op_get i 0 n))) out
              ∙ append_assoc s.outgoing (wire (command (named_command op_get filename)))
                  (wire (transfer (data_request op_get i 0 n))),
        )

  pub read_proc_reads :
      (filename : List ℕ) (fileoffset buflen i n : ℕ) (xs ys : List Aio) (old : ℕ → ℕ)
      (rest : List ℕ) (spare more : ℕ) (s : Sock) (q : ℕ)
      → fileoffset < n
      → 0 < buflen
      → buflen ≤ max_buf_size
      → n + max_buf_size < 2 ^ 31
      → Permᴰ xs ys
      → Tiles fileoffset (asked_remain n fileoffset buflen) xs
      → All IsAnswer xs
      → IsWord i
      → s.incoming ≡ wire (command (sized_reply op_read_reply i n)) ++ (sent_all content ys ++ rest)
      → Enough (436 + (0 + (32 + (0 + spare)))) s.writes
      → Enough (20 + (416 + (0 + cost ys more))) s.reads
      → let (e, buf, s') = read_proc filename fileoffset buflen old s in
        (e ≡ finished)
        × (buf q
            ≡ (if ltb q (min buflen (n - fileoffset)) then content (fileoffset + q) else old q))
        × (s'.incoming ≡ rest)
        × (s'.outgoing
            ≡ s.outgoing
              ++ (wire (command (range_command op_read filename fileoffset buflen))
                  ++ wire
                      (transfer (data_request op_read i fileoffset (min buflen (n - fileoffset))))))
  read_proc_reads filename fileoffset buflen i n xs ys old rest spare more s q inside p few small
        order tiles v word inc ew er =
      let remain : asked_remain n fileoffset buflen ≡ min buflen (n - fileoffset) = ground arith in
      let (s1, tried, (out, i1, w1, r1)) =
        retry-accepted op_read 2 (command (range_command op_read filename fileoffset buflen))
          (sized_reply op_read_reply i n) (sent_all content ys ++ rest) (32 + (0 + spare))
          (cost ys more) s
          (range_command-IsSendable op_read filename fileoffset buflen (omega arith) (omega arith)
            (omega arith))
          (sized_reply-IsSendable op_read_reply i n (omega arith) word (omega arith)) refl inc ew
          er in
      let request = data_request op_read i fileoffset (min buflen (n - fileoffset)) in
      let (s2, (runs, i2, r2, out2)) =
        fetch-Fetched (read_round fileoffset) request (min buflen (n - fileoffset)) spare old s1
          (data_request-IsSendable op_read i fileoffset (min buflen (n - fileoffset)) (omega arith)
            word (omega arith) (omega arith))
          w1 in
      let (done, filled, left, _) =
        read_receives content fileoffset (min buflen (n - fileoffset)) xs ys old rest more s2 q
          order (subst (λ r. Tiles fileoffset r xs) remain tiles) v (omega arith) (i2 ∙ i1)
          (rw r2 r1) in
      rw
        (
          read_proc-fetch filename fileoffset buflen old i n (min buflen (n - fileoffset)) s s1
              (ground arith) (ground arith) remain tried,
          runs,
        )
        (
          done,
          filled,
          left,
          receive_loop-outgoing (read_round fileoffset) (suc (length s2.incoming)) 0
                (min buflen (n - fileoffset)) old s2
              ∙ out2
              ∙ ap (λ o. o ++ wire (transfer request)) out
              ∙ append_assoc s.outgoing
                  (wire (command (range_command op_read filename fileoffset buflen)))
                  (wire (transfer request)),
        )
