-- ===== src/System/Read.antt =====
-- A READ on both sides: the range that the client asks for is the one that the server locks, and the
-- replies of the finished transfers give the client's buffer, in whatever order they come.
use Prim.Native.Nat.{min}
use mathlib.Core.List.{Permᴰ, append_assoc}
use file_server.Base.{
  ℕ, ◌+◌, ◌-◌, ◌^◌, ◌≤◌, ◌<◌, ◌≡◌, ap, subst, sym, ◌∙◌, inl, inr, true, false, some, List, [], ◌++◌,
  arith, All, ltb, if◌then◌else◌, get_elem?, set, get_elem?-set_self, length, length-set,
}
use file_server.Base.Reorder.{Perm-All}
use file_server.Base.Word.{is_negative}
use file_server.Sock.{Sock}
use file_server.Sock.Transfer.{Enough}
use file_server.Filemeta.{FileMeta, IsValid, infos}
use file_server.Filemeta.Index.Catalog.{position}
use file_server.Filemeta.Index.Refine.{index-lt-cnt}
use file_server.Filemeta.Lock.{open_fd, take_lock, must_wait}
use file_server.Msg.{Commsg, Datamsg, command, transfer, file_stripe, op_read, op_read_reply}
use file_server.Msg.Exchange.Wire.{wire}
use file_server.Worker.{Aio, Server, Kernel, Outcome, reply, no_reply, lock_units, range_remain}
use file_server.Worker.Commands.{read_command, sized_reply}
use file_server.Worker.Commands.Replies.{in_file, range_known}
use file_server.Worker.Commands.Locking.{Locks, Locks-free}
use file_server.Worker.Transfers.{read_data}
use file_server.Worker.Transfers.Stripes.{Tiles, IsRead}
use file_server.Worker.Transfers.Whole.{Sends, read_data-Sends}
use file_server.Worker.Events.Release.{lt_of_get}
use file_server.Client.Command.{range_command, data_request}
use file_server.Client.Receive.{finished}
use file_server.Client.Receive.Chunks.{IsAnswer, sent_all, cost}
use file_server.Client.Procedures.{read_proc, asked_remain, max_buf_size}
use file_server.Client.Procedures.Downloads.{read_proc_reads}
use file_server.System.{send_replies, send_outcome}
use file_server.System.Replies.{reply_cost, replies_on, IsAnswer-of_IsRead}

-- For an offset inside of the file, and a size and a length with a sum below 2 GB, the client and
-- the server compute the same number of bytes for a range, which is the smaller one of the length
-- and of what the file has from the offset on.
pub same_range :
    (filesize offset reqlen : ℕ)
    → offset < filesize
    → filesize + reqlen < 2 ^ 31
    → (asked_remain filesize offset reqlen ≡ range_remain filesize offset reqlen)
      × (asked_remain filesize offset reqlen ≡ min reqlen (filesize - offset))
same_range filesize offset reqlen inside small = (ground arith, ground arith)

module _ (content : ℕ → ℕ) (filename : List ℕ) (off len : ℕ) (k : Kernel) (s : Server)
    (m : FileMeta) (i : ℕ) (v : IsValid s.list)
    (at : position (range_command op_read filename off len).fi.filename (infos s.list) ≡ some i)
    (e : get_elem? s.list.filearr i ≡ some m) (free : must_wait true m ≡ false)
    (inside : off < m.fi.filesize) (p : 0 < len) (few : len ≤ max_buf_size)
    (small : m.fi.filesize + file_stripe ≤ 2 ^ 31) where
  abbrev c : Commsg
  c = range_command op_read filename off len

  -- The bytes of the range that the file has.
  abbrev pub range : ℕ
  range = min len (m.fi.filesize - off)

  abbrev pub locked_meta : FileMeta
  locked_meta = take_lock (record { read = true; cnt = lock_units range }) m

  abbrev after : Server
  after = record s { list = record (s.list) { filearr = set s.list.filearr i locked_meta } }

  read_command-free :
      read_command c s ≡ (reply (command (sized_reply op_read_reply i m.fi.filesize)), after)
  read_command-free =
      let bytes : in_file m.fi.filesize off len ≡ range = ground arith in
      Locks-free i range true m _ s _ free (
        subst
          (λ n. Locks i true n m (sized_reply op_read_reply i m.fi.filesize) s (read_command c s))
          bytes (range_known c s i m v at e inside p (omega arith) (omega arith) (omega arith)).0)

  abbrev pub handled : Outcome × Server
  handled = read_data k (data_request op_read i off range) (read_command c s).1

  -- The handler returns NULL, and there is one transfer for each unit of the lock.
  abbrev Whole : Outcome × Server → Type 0
  Whole r =
      (r.0 ≡ no_reply)
      × Tiles off range r.1.aios
      × All (IsRead op_read_reply i (open_fd true k.opened locked_meta).0) r.1.aios
      × (length r.1.aios ≡ lock_units range)

  i_in : i < s.list.cnt
  i_in = index-lt-cnt c.fi.filename s.list i v at

  locked-IsValid : IsValid after.list
  locked-IsValid = ground (arith, length-set s.list.filearr i locked_meta)

  at_locked : get_elem? after.list.filearr i ≡ some locked_meta
  at_locked = get_elem?-set_self s.list.filearr i locked_meta (lt_of_get s.list.filearr i m e)

  abbrev request : Datamsg
  request = data_request op_read i off range

  Whole-of_Sends :
      ((j : ℕ) → k.submits j ≡ true)
      → s.aios ≡ []
      → (r : Outcome × Server)
      → Sends k request after locked_meta i_in locked-IsValid at_locked op_read_reply off range r
      → Whole r
  Whole-of_Sends all none_before r (taken, st, reads, inr (_, j, _, no_room, _)) = cc (all j)
  Whole-of_Sends all none_before r (taken, st, reads, inl (o, tiles, count)) =
      let aios : r.1.aios ≡ taken = ap (λ x. x.aios) st ∙ ap (λ xs. xs ++ taken) none_before in
      (
        o,
        subst (Tiles off range) (sym aios) tiles,
        subst (All (IsRead op_read_reply i (open_fd true k.opened locked_meta).0)) (sym aios) reads,
        ap length aios ∙ count,
      )

  -- A READ as a whole. Take a server with a well-formed list and no transfers under way, a file of
  -- the name that is typed in, of at most 2 GB less a stripe, for which a reader does not have to
  -- wait, a kernel that opens it and takes every transfer, and an unused connection; and a client
  -- that asks for 1 to 100,000 bytes from an offset inside of the file on. The server's replies to
  -- the command and to the request, the latter in whatever order, arrive at the client with other
  -- bytes behind them, both kernels moving something in each of enough calls. Then `read_proc` ends
  -- at its loop's test, has sent that command and a request for the bytes of the range that the
  -- file has, leaves the other bytes, and its buffer has those bytes of the file at its front and
  -- is as before behind them; and the server's handler returned NULL and submitted one transfer for
  -- each unit of the lock that the command took.
  pub read_on_both_sides :
      (ys : List Aio) (old : ℕ → ℕ) (rest : List ℕ) (spare more spare' : ℕ) (a b : Sock) (q : ℕ)
      → is_negative (open_fd true k.opened locked_meta).0 ≡ false
      → ((j : ℕ) → k.submits j ≡ true)
      → s.aios ≡ []
      → Permᴰ handled.1.aios ys
      → a.outgoing ≡ []
      → b.incoming
        ≡ (send_replies content ys (send_outcome (read_command c s).0 a)).outgoing ++ rest
      → Enough (436 + (0 + reply_cost ys spare)) a.writes
      → Enough (436 + (0 + (32 + (0 + spare')))) b.writes
      → Enough (20 + (416 + (0 + cost ys more))) b.reads
      → let (done, buf, b') = read_proc filename off len old b in
        (done ≡ finished)
        × (buf q ≡ (if ltb q range then content (off + q) else old q))
        × (b'.incoming ≡ rest)
        × (b'.outgoing ≡ b.outgoing ++ (wire (command c) ++ wire (transfer request)))
        × (handled.0 ≡ no_reply)
        × (length handled.1.aios ≡ lock_units range)
  read_on_both_sides ys old rest spare more spare' a b q opens all none_before order empty joined ea
        eb er =
      let n = m.fi.filesize in
      let word : i < 2 ^ 32 = omega (arith, v.within, i_in) in
      let bytes : asked_remain n off len ≡ range = ground arith in
      let (silent, tiles, reads, count) =
        subst (λ r. Whole (read_data k request r.1)) (sym read_command-free)
          (Whole-of_Sends all none_before (read_data k request after) (
            read_data-Sends k request after locked_meta i_in locked-IsValid at_locked opens
              (omega arith) (omega arith))) in
      let answers =
        IsAnswer-of_IsRead op_read_reply i (open_fd true k.opened locked_meta).0 off range
          handled.1.aios (omega arith) word (omega arith) tiles reads in
      let on_wire =
        replies_on op_read_reply content i n (read_command c s).0 ys spare a
          (ap (λ r. r.0) read_command-free) (omega arith) word (omega arith)
          (Perm-All IsAnswer order answers) empty ea in
      let (done, filled, left, out) =
        read_proc_reads content filename off len i n handled.1.aios ys old rest spare' more b q
          inside p few (omega arith) order
          (subst (λ z. Tiles off z handled.1.aios) (sym bytes) tiles) answers word
          (joined
            ∙ ap (λ xs. xs ++ rest) on_wire
            ∙ append_assoc (wire (command (sized_reply op_read_reply i n))) (sent_all content ys)
                rest)
          eb er in
      (done, filled, left, out, silent, count)
