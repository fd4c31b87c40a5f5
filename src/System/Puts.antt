-- ===== src/System/Puts.antt =====
-- A PUT on both sides: what the client sends, what the server receives, its handlers and events, and
-- its file.
use mathlib.Core.List.{Permᴰ, append_assoc}
use file_server.Base.{
  ℕ, suc, length-replicate, ◌+◌, ◌-◌, ◌*◌, ◌^◌, ◌≤◌, ◌<◌, ◌≡◌, ap, subst, sym, ◌∙◌, true, false,
  none, List, [], ◌∷◌, ◌++◌, arith, All, ltb, if◌then◌else◌, length, map,
}
use file_server.Base.Word.{is_negative}
use file_server.Contents.{within}
use file_server.Sock.{Sock}
use file_server.Sock.Transfer.{Enough}
use file_server.Filemeta.{IsValid, infos, max_file}
use file_server.Filemeta.Index.Catalog.{position}
use file_server.Msg.{Datamsg, command, op_put, op_put_reply, file_stripe, err_none}
use file_server.Msg.Exchange.{received, recv_msg}
use file_server.Msg.Exchange.Wire.{wire}
use file_server.Msg.Exchange.Recv.{recv_msg-bare}
use file_server.Worker.{Aio, Server, Kernel, lock_units, reply, data_reply}
use file_server.Worker.Commands.{put_command, found_reply}
use file_server.Worker.PutCycle.{put_cycle, put_cycle-aios}
use file_server.Worker.PutRun.{put_all, IsWilling, Frees, put_transfer}
use file_server.Worker.Commands.Puts.{put_command-added}
use file_server.Client.Fileio.{AioCalls}
use file_server.Client.Command.{sized_command}
use file_server.Client.Command.Accept.{sized_command-IsSendable}
use file_server.Client.Receive.{Ended, finished}
use file_server.Client.Receive.Places.{Serves}
use file_server.Client.Send.Acks.{acks, ack_cost}
use file_server.Client.Send.Uploads.{Parts, uploaded}
use file_server.Client.Procedures.{put_proc}
use file_server.Client.Procedures.Puts.{Delivers, put_proc_puts}
use file_server.System.{recv_all, Store, stores, written, send_answers, send_outcome}
use file_server.System.Put.{
  incoming_of, received_part, part_cost, recv_all-Parts, store_of, stores-Parts, written-Parts,
}
use file_server.System.Acks.{put_replies, put_replies-IsAck, answers-put_replies, answers_on}

Parts-cost :
    (op fd offset remain : ℕ) (ds : List Datamsg) (spare : ℕ)
    → Parts op fd offset remain ds
    → part_cost ds spare ≡ length ds * 32 + (remain + spare)
Parts-cost op fd offset remain [] spare h = omega arith
Parts-cost op fd offset remain (d ∷ more) spare (same, p, stripe, le, parts) = omega (
  arith,
  ap (λ x. x.hd.msglen) same,
  Parts-cost op fd (offset + d.hd.buflen) (remain - d.hd.buflen) more spare parts,
)

Parts-index :
    (op fd offset remain : ℕ) (ds : List Datamsg)
    → Parts op fd offset remain ds
    → All (λ d. d.sfilefd ≡ fd) ds
Parts-index op fd offset remain [] h = tt
Parts-index op fd offset remain (d ∷ more) (same, p, stripe, le, parts) = (
  ap (λ x. x.sfilefd) same,
  Parts-index op fd (offset + d.hd.buflen) (remain - d.hd.buflen) more parts,
)

-- The server receives the command and one message for each unit of its lock. Its handlers and events
-- leave the new file idle, the answers are those of `put_replies`, and the transfers that the handlers submitted,
-- carried out in `order` with the messages' streams, make the byte at `q`.
abbrev pub Takes :
    (ℕ → ℕ)
    → List ℕ
    → List ℕ
    → ℕ
    → Kernel
    → Server
    → Sock
    → (List Store → List Store)
    → (ℕ → ℕ)
    → ℕ
    → Type 0
Takes file filename fileowner n k s a order disk q =
    let c = sized_command filename fileowner n in
    (ds : List Datamsg) × (taken : List Aio) × ((recv_msg true a).0 ≡ received (command c) none)
    × ((recv_all (lock_units n) (recv_msg true a).1).0
        ≡ map (λ d. received_part (incoming_of file 0 d)) ds)
    × ((put_command c s).0 ≡ reply (command (found_reply op_put_reply s.list.cnt)))
    × ((put_all k ds (put_command c s).1).aios ≡ s.aios ++ taken)
    × (map (λ a. a.answer) taken ≡ put_replies s.list.cnt (lock_units n))
    × Frees s.list.cnt (lock_units n) s (put_all k ds (put_command c s).1)
    × (written k.opened (order (stores taken (map (λ d. (incoming_of file 0 d).stream) ds))) disk q
        ≡ (if ltb q n then file q else disk q))

module _ (file : ℕ → ℕ) (filename fileowner : List ℕ) (n : ℕ) (k : Kernel) (s : Server)
    (v : IsValid s.list)
    (new : position (sized_command filename fileowner n).fi.filename (infos s.list) ≡ none)
    (room : suc s.list.cnt < max_file) (p : 0 < n) (small : n + file_stripe ≤ 2 ^ 31)
    (willing : IsWilling k) where
  takes :
      (r : Ended × Sock) (rest rest' : List ℕ) (spare : ℕ) (a b : Sock)
      (order : List Store → List Store) (disk : ℕ → ℕ) (q : ℕ)
      → Delivers op_put
          (sized_command filename fileowner n)
          s.list.cnt
          file
          0
          0
          n
          rest
          (lock_units n)
          b
          r
      → b.outgoing ≡ []
      → a.incoming ≡ r.1.outgoing ++ rest'
      → Enough (20 + (416 + (0 + (lock_units n * 32 + (n + spare))))) a.reads
      → ((xs : List Store) → Permᴰ xs (order xs))
      → Takes file filename fileowner n k s a order disk q
  takes r rest rest' spare a b order disk q (ds, done, parts, len, out, left) empty joined ea
        reorders =
      let c = sized_command filename fileowner n in
      let (got, i1, r1) =
        recv_msg-bare true (command c) (uploaded file 0 ds ++ rest')
          (lock_units n * 32 + (n + spare)) a
          (sized_command-IsSendable filename fileowner n (omega arith))
          (joined
            ∙ ap (λ o. o ++ rest')
                (out ∙ ap (λ o. o ++ (wire (command c) ++ uploaded file 0 ds)) empty)
            ∙ append_assoc (wire (command c)) (uploaded file 0 ds) rest')
          ea in
      let cost : part_cost ds spare ≡ lock_units n * 32 + (n + spare) =
        Parts-cost op_put s.list.cnt 0 n ds spare parts ∙ ap (λ u. u * 32 + (n + spare)) len in
      let (all, _) =
        recv_all-Parts file 0 op_put s.list.cnt 0 n ds rest' spare (recv_msg true a).1 (omega arith)
          (omega (arith, v.within)) (omega arith) parts i1
          (subst (λ z. Enough z (recv_msg true a).1.reads) (sym cost) r1) in
      let inside : within 0 n q ≡ ltb q n = ground arith in
      let index = Parts-index op_put s.list.cnt 0 n ds parts in
      let made = stores-Parts k.opened file 0 ds in
      (
        ds,
        map (put_transfer k.opened) ds,
        got,
        subst
            (λ u.
              (recv_all u (recv_msg true a).1).0
              ≡ map (λ d. received_part (incoming_of file 0 d)) ds)
            len all,
        ap (λ x. x.0) (put_command-added c s v new room p (omega arith)),
        put_cycle-aios k c ds s v new room p (omega arith) willing index,
        answers-put_replies k.opened s.list.cnt ds index ∙ ap (put_replies s.list.cnt) len,
        put_cycle k c ds s v new room p small willing index len,
        ap (λ xs. written k.opened (order xs) disk q) made
            ∙ written-Parts k.opened file 0 op_put s.list.cnt 0 n ds
                (order (map (store_of k.opened file 0) ds)) disk q (omega arith) parts
                (reorders (map (store_of k.opened file 0) ds))
            ∙ rw inside (ap (λ z. if ltb q n then file z else disk q) (omega arith)),
      )

  -- A PUT as a whole. Take a client with a local file of at least one byte and at most 2 GB less a
  -- stripe, whose kernel opens it and serves each `read_file`, on an unused connection; and a
  -- server with a well-formed list with room that does not have the name, whose kernel opens a file
  -- and takes a transfer. Each side receives what the other sends with other bytes behind it: the
  -- client the server's answer to the command and its answers to as many data messages as its lock
  -- has units, sent on an unused connection, and the server what `put_proc` sends, both kernels
  -- moving something in each of enough calls. Then `put_proc` ends at its loop's test; the server
  -- receives the command and one data message for each unit of its lock, with the file's bytes; it
  -- answers the command at once with the index; its handlers submit one transfer for each data
  -- message, whose answers are those that the client received, and the event thread's round over
  -- them leaves the new file with nobody who holds it or waits; and the transfers, each carried out
  -- with its message's stream and in whatever order, write to the descriptor that the kernel opened
  -- and make the file behind it equal to the client's at each position below the size and leave it
  -- as it was elsewhere.
  pub put_on_both_sides :
      (calls : ℕ → AioCalls) (opened : ℕ) (buf : ℕ → ℕ) (rest rest' : List ℕ)
      (spare spare' spare'' more : ℕ) (a w b : Sock) (order : List Store → List Store)
      (disk : ℕ → ℕ) (q : ℕ)
      → is_negative opened ≡ false
      → Serves calls
      → w.outgoing ≡ []
      → b.outgoing ≡ []
      → b.incoming
        ≡ (send_answers
            (put_replies s.list.cnt (lock_units n))
            (send_outcome (put_command (sized_command filename fileowner n) s).0 w)).outgoing
          ++ rest
      → a.incoming ≡ (put_proc calls opened filename fileowner n file buf b).1.outgoing ++ rest'
      → Enough (436 + (0 + (lock_units n * 32 + spare''))) w.writes
      → Enough (436 + (0 + (lock_units n * 32 + (n + spare)))) b.writes
      → Enough (20 + (416 + (0 + ack_cost (put_replies s.list.cnt (lock_units n)) more))) b.reads
      → Enough (20 + (416 + (0 + (lock_units n * 32 + (n + spare'))))) a.reads
      → ((xs : List Store) → Permᴰ xs (order xs))
      → ((put_proc calls opened filename fileowner n file buf b).0 ≡ finished)
        × Takes file filename fileowner n k s a order disk q
  put_on_both_sides calls opened buf rest rest' spare spare' spare'' more a w b order disk q ok
        serves unused empty arriving joined ew eb er ea reorders =
      let c = sized_command filename fileowner n in
      let i = s.list.cnt in
      let replies = put_replies i (lock_units n) in
      let few : i < 1000 = omega (arith, v.within) in
      let told = ap (λ x. x.0) (put_command-added c s v new room p (omega arith)) in
      let answers =
        ap (λ o. (send_answers replies (send_outcome o w)).outgoing) told
        ∙ answers_on i (lock_units n) spare'' w few unused ew in
      let sent =
        put_proc_puts calls opened filename fileowner n file buf i replies rest spare more b ok
          serves (omega (arith, v.within)) p small (put_replies-IsAck i (lock_units n) few)
          (length-replicate (lock_units n) (data_reply op_put_reply err_none i))
          (arriving
            ∙ ap (λ o. o ++ rest) answers
            ∙ append_assoc (wire (command (found_reply op_put_reply i))) (acks replies) rest)
          eb er in
      (
        sent.1,
        takes (put_proc calls opened filename fileowner n file buf b) rest rest' spare' a b order
            disk q sent empty joined ea reorders,
      )
