-- ===== src/System/Get.antt =====
-- A GET on both sides: what the client sends, what the server's handlers make of it, the replies of
-- the finished transfers in whatever order, and the file that the client writes.
use mathlib.Core.List.{Permᴰ, append_assoc}
use file_server.Base.{
  ℕ, ◌+◌, ◌^◌, ◌≤◌, ◌<◌, ◌≡◌, ap, subst, ◌∙◌, true, false, some, List, [], ◌++◌, arith, ltb,
  if◌then◌else◌, get_elem?,
}
use file_server.Base.Word.{is_negative}
use file_server.Sock.{Sock}
use file_server.Sock.Transfer.{Enough}
use file_server.Filemeta.{FileMeta, IsValid, infos}
use file_server.Filemeta.Index.Catalog.{position}
use file_server.Filemeta.Index.Refine.{index-lt-cnt}
use file_server.Filemeta.Lock.{open_fd, take_lock}
use file_server.Msg.{Commsg, Datamsg, command, transfer, file_stripe, op_get, op_get_reply}
use file_server.Msg.Exchange.Wire.{wire}
use file_server.Worker.{Aio, Server, Kernel, Outcome, lock_units}
use file_server.Worker.Commands.{get_command, sized_reply}
use file_server.Worker.Transfers.{get_data}
use file_server.Base.Reorder.{Perm-All}
use file_server.Worker.Cycle.{IsIdle, get_cycle}
use file_server.Client.Fileio.{AioCalls}
use file_server.Client.Command.{named_command, data_request}
use file_server.Client.Receive.{finished}
use file_server.Client.Receive.Chunks.{IsAnswer, sent_all, cost}
use file_server.Client.Receive.Places.{Serves}
use file_server.Client.Procedures.{get_proc}
use file_server.Client.Procedures.Downloads.{get_proc_gets}
use file_server.System.{send_replies, send_outcome}
use file_server.System.Replies.{replies_on, reply_cost, IsAnswer-of_IsRead}

-- The two messages of the client.
abbrev pub asks : List ℕ → Commsg
asks filename = named_command op_get filename

abbrev pub requests : ℕ → ℕ → Datamsg
requests i n = data_request op_get i 0 n

module _ (content : ℕ → ℕ) (filename : List ℕ) (k : Kernel) (s : Server) (m : FileMeta) (i : ℕ)
    (v : IsValid s.list) (at : position (asks filename).fi.filename (infos s.list) ≡ some i)
    (e : get_elem? s.list.filearr i ≡ some m) (idle : IsIdle m) (p : 0 < m.fi.filesize)
    (small : m.fi.filesize + file_stripe ≤ 2 ^ 31) where
  abbrev n : ℕ
  n = m.fi.filesize

  -- The server's two handlers, one after the other.
  abbrev pub answered : Outcome × Server
  answered = get_command (asks filename) s

  abbrev pub handled : Outcome × Server
  handled = get_data k (requests i n) answered.1

  -- A GET as a whole. Take a server with a well-formed list and no transfers under way, a file of
  -- the name that is typed in, of at least one byte and at most 2 GB less a stripe, that nobody
  -- holds or waits for, a kernel that opens it and takes every transfer, and an unused connection;
  -- and a client whose kernel opens the local file and serves each `write_file`. The server's
  -- handlers get the client's command and request, its replies go out, those of the finished
  -- transfers in whatever order, and arrive at the client with other bytes behind them, both
  -- kernels moving something in each of enough calls. Then `get_proc` ends at its loop's test, has
  -- sent that command and that request and nothing else, leaves the other bytes, and the local file
  -- has at each position below the size the byte of the server's file, and its old byte elsewhere.
  pub get_on_both_sides :
      (calls : ℕ → AioCalls) (opened : ℕ) (ys : List Aio) (old : ℕ → ℕ) (rest : List ℕ)
      (spare more spare' : ℕ) (a b : Sock) (q : ℕ)
      → is_negative
          (open_fd true k.opened
            (take_lock (record { read = true; cnt = lock_units m.fi.filesize }) m)).0
        ≡ false
      → ((j : ℕ) → k.submits j ≡ true)
      → s.aios ≡ []
      → Permᴰ handled.1.aios ys
      → is_negative opened ≡ false
      → Serves calls
      → a.outgoing ≡ []
      → b.incoming ≡ (send_replies content ys (send_outcome answered.0 a)).outgoing ++ rest
      → Enough (436 + (0 + reply_cost ys spare)) a.writes
      → Enough (436 + (0 + (32 + (0 + spare')))) b.writes
      → Enough (20 + (416 + (0 + cost ys more))) b.reads
      → let (done, file, b') = get_proc calls opened filename old b in
        (done ≡ finished)
        × (file q ≡ (if ltb q m.fi.filesize then content q else old q))
        × (b'.incoming ≡ rest)
        × (b'.outgoing
            ≡ b.outgoing
              ++ (wire (command (asks filename)) ++ wire (transfer (requests i m.fi.filesize))))
  get_on_both_sides calls opened ys old rest spare more spare' a b q server_opens all none_before
        order client_opens serves empty joined ea eb er =
      let (cmd, (taken, _, _, _, aios, tiles, reads, _, _, _, _, _)) =
        get_cycle k (asks filename) (requests i n) s m v at e idle p small server_opens all in
      let inside = index-lt-cnt (asks filename).fi.filename s.list i v at in
      let all_taken : handled.1.aios ≡ taken = aios ∙ ap (λ xs. xs ++ taken) none_before in
      let order' = subst (λ xs. Permᴰ xs ys) all_taken order in
      let answers =
        IsAnswer-of_IsRead op_get_reply i _ 0 n taken (omega arith)
          (omega (arith, v.within, inside)) (omega arith) tiles reads in
      let on_wire =
        replies_on op_get_reply content i n answered.0 ys spare a (ap (λ r. r.0) cmd) (omega arith)
          (omega (arith, v.within, inside)) (omega arith) (Perm-All IsAnswer order' answers) empty
          ea in
      get_proc_gets content calls opened filename i n taken ys old rest spare' more b q client_opens
        serves order' tiles answers (omega (arith, v.within, inside)) (omega arith)
        (joined
          ∙ ap (λ xs. xs ++ rest) on_wire
          ∙ append_assoc (wire (command (sized_reply op_get_reply i n))) (sent_all content ys) rest)
        eb er
