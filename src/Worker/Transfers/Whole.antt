-- ===== src/Worker/Transfers/Whole.antt =====
-- The data phases of GET and READ, and an index that is negative.
use file_server.Base.{
  ℕ, ◌+◌, ◌^◌, ◌≤◌, ◌<◌, ◌≡◌, refl, ap, sym, ◌∙◌, ◌⊎◌, inl, inr, Bool, true, false, none, some,
  List, ◌++◌, arith, length, All, get_elem?, set, get_elem?-set_self,
}
use file_server.Base.Word.{ge_int, is_negative}
use file_server.Filemeta.{FileMeta, FileList, IsValid}
use file_server.Filemeta.Lock.{get_fd_by_fidx, open_fd}
use file_server.Msg.{Datamsg, transfer, op_get_reply, op_read_reply, file_stripe}
use file_server.Worker.{Aio, Server, Kernel, Outcome, no_reply, reply, crash, lock_units}
use file_server.Worker.Commands.Locking.{get_filemeta-known}
use file_server.Worker.Events.Release.{lt_of_get}
use file_server.Worker.Transfers.{
  get_data, read_data, write_data, put_data, store_data, stripe_loop, rounds, LoopEnd, loop_outcome,
  submitted,
}
use file_server.Worker.Transfers.Stripes.{
  Tiles, IsRead, Ends, stripes, stripe_loop-Ends, lock_units-stripes,
}

pub get_fd-known :
    (i opened : ℕ) (read : Bool) (l : FileList) (m : FileMeta)
    → i < l.cnt
    → l.cnt < 2 ^ 31
    → get_elem? l.filearr i ≡ some m
    → get_fd_by_fidx i read opened l
      ≡ some (
        (open_fd read opened m).0,
        record l { filearr = set l.filearr i (open_fd read opened m).1 },
      )
unfolding get_fd_by_fidx
get_fd-known i opened read l m h small e =
    let inside : ge_int i l.cnt ≡ false = ground arith in
    let counted : is_negative i ≡ false = ground arith in rw (inside, counted, e) refl

open_fd-fi : (read : Bool) (opened : ℕ) (m : FileMeta) → (open_fd read opened m).1.fi ≡ m.fi
unfolding open_fd
open_fd-fi read opened m = ground arith

-- The list of files once file `i` is open.
abbrev pub opened_list : ℕ → Bool → ℕ → FileMeta → FileList → FileList
opened_list i read opened m l = record l { filearr = set l.filearr i (open_fd read opened m).1 }

module _ (k : Kernel) (d : Datamsg) (s : Server) (m : FileMeta) (i_in : d.sfilefd < s.list.cnt)
    (v : IsValid s.list) (e : get_elem? s.list.filearr d.sfilefd ≡ some m) where
  small_count : s.list.cnt < 2 ^ 31
  small_count = omega (arith, v.within)

  abbrev get_loop : ℕ → List Aio × LoopEnd
  get_loop n =
      stripe_loop op_get_reply d.sfilefd (open_fd true k.opened m).0 k.submits (rounds n) 0 0 n

  get_data-loop :
      is_negative (open_fd true k.opened m).0 ≡ false
      → get_data k d s
        ≡ submitted
            (record s { list = opened_list d.sfilefd true k.opened m s.list })
            (get_loop m.fi.filesize)
  unfolding get_data
  get_data-loop ok = ground (
    arith,
    get_fd-known d.sfilefd k.opened true s.list m i_in small_count e,
    get_filemeta-known d.sfilefd (opened_list d.sfilefd true k.opened m s.list)
        (open_fd true k.opened m).1 i_in small_count
        (get_elem?-set_self s.list.filearr d.sfilefd (open_fd true k.opened m).1
          (lt_of_get s.list.filearr d.sfilefd m e)),
    open_fd-fi true k.opened m,
  )

  abbrev read_loop : List Aio × LoopEnd
  read_loop =
      stripe_loop op_read_reply d.sfilefd (open_fd true k.opened m).0 k.submits (rounds d.reqlen) 0
        d.offset d.reqlen

  read_data-loop :
      is_negative (open_fd true k.opened m).0 ≡ false
      → read_data k d s
        ≡ submitted (record s { list = opened_list d.sfilefd true k.opened m s.list }) read_loop
  unfolding read_data
  read_data-loop ok =
      ground (arith, get_fd-known d.sfilefd k.opened true s.list m i_in small_count e)

  -- What a handler does that sends `remain` bytes from `offset` on: either it returns NULL, and its
  -- transfers tile the range, one for each unit of the lock, all for the file; or a transfer was
  -- refused, the reply is an error, and fewer transfers than units were submitted.
  abbrev pub Sends : ℕ → ℕ → ℕ → Outcome × Server → Type 0
  Sends op offset remain r =
      (taken : List Aio) × (r.1
        ≡ record s { list = opened_list d.sfilefd true k.opened m s.list; aios = s.aios ++ taken })
      × All (IsRead op d.sfilefd (open_fd true k.opened m).0) taken
      × (((r.0 ≡ no_reply) × Tiles offset remain taken × (length taken ≡ lock_units remain))
          ⊎ ((d' : Datamsg) × (j : ℕ) × (r.0 ≡ reply (transfer d'))
              × (k.submits j ≡ false)
              × (length taken < lock_units remain)))

  Sends-of_loop :
      (op offset remain : ℕ)
      → remain + file_stripe ≤ 2 ^ 31
      → offset + remain < 2 ^ 32
      → Sends op offset remain (
          submitted
            (record s { list = opened_list d.sfilefd true k.opened m s.list })
            (stripe_loop op d.sfilefd
              (open_fd true k.opened m).0
              k.submits
              (rounds remain)
              0
              offset
              remain))
  Sends-of_loop op offset remain small fits =
      let (ends, reads) =
        stripe_loop-Ends op d.sfilefd (open_fd true k.opened m).0 k.submits offset remain
          (omega arith) fits in
      (_, refl, reads, by_end _ ends)
    where
      units : lock_units remain ≡ stripes remain
      units = lock_units-stripes remain small

      by_end :
          (r : List Aio × LoopEnd)
          → Ends op d.sfilefd (open_fd true k.opened m).0 k.submits offset remain r
          → ((loop_outcome r.1 ≡ no_reply)
              × Tiles offset remain r.0
              × (length r.0 ≡ lock_units remain))
            ⊎ ((a : Datamsg) × (j : ℕ) × (loop_outcome r.1 ≡ reply (transfer a))
                × (k.submits j ≡ false)
                × (length r.0 < lock_units remain))
      by_end r (inl (f, tiles, len)) = inl (ap loop_outcome f, tiles, len ∙ sym units)
      by_end r (inr (a, j, f, no_room, len)) =
          inr (a, j, ap loop_outcome f, no_room, omega (arith, units))

  -- The data phase of a GET for a file of a well-formed list, where there is a descriptor and the
  -- size is at most 2 GB less a stripe, sends the whole file, whatever range the message names.
  -- Either the handler returns NULL, its transfers tile the file, and there is one for each unit of
  -- the lock; or `io_submit` refused one, the handler returns a data message, and fewer transfers
  -- than the lock has units were submitted. All submitted transfers read this file.
  pub get_data-Sends :
      is_negative (open_fd true k.opened m).0 ≡ false
      → m.fi.filesize + file_stripe ≤ 2 ^ 31
      → Sends op_get_reply 0 m.fi.filesize (get_data k d s)
  get_data-Sends ok small =
      rw (get_data-loop ok) (Sends-of_loop op_get_reply 0 m.fi.filesize small (omega arith))

  -- The data phase of a READ for a file of a well-formed list, where there is a descriptor, the
  -- length is at most 2 GB less a stripe and the range's end does not overflow, sends the range of
  -- the message. Either the handler returns NULL, its transfers tile the range, and there is one
  -- for each unit of a lock of that length; or `io_submit` refused one, the handler returns a data
  -- message, and fewer transfers than units were submitted. All submitted transfers read this file.
  pub read_data-Sends :
      is_negative (open_fd true k.opened m).0 ≡ false
      → d.reqlen + file_stripe ≤ 2 ^ 31
      → d.offset + d.reqlen < 2 ^ 32
      → Sends op_read_reply d.offset d.reqlen (read_data k d s)
  read_data-Sends ok small fits =
      rw (read_data-loop ok) (Sends-of_loop op_read_reply d.offset d.reqlen small fits)

get_fd-negative :
    (i opened : ℕ) (read : Bool) (l : FileList)
    → 2 ^ 31 ≤ i
    → i < 2 ^ 32
    → l.cnt < 2 ^ 31
    → get_fd_by_fidx i read opened l ≡ none
unfolding get_fd_by_fidx
get_fd-negative i opened read l low word small =
    let passes : ge_int i l.cnt ≡ false = ground arith in
    let negative : is_negative i ≡ true = ground arith in rw (passes, negative) refl

-- On a well-formed list, a data message whose index is negative as an `int` passes the guards of
-- the READ, WRITE, PUT and GET handlers and makes each of them access memory in front of the array.
pub negative_index_crashes :
    (k : Kernel) (d : Datamsg) (s : Server)
    → 2 ^ 31 ≤ d.sfilefd
    → d.sfilefd < 2 ^ 32
    → IsValid s.list
    → (read_data k d s ≡ (crash, s))
      × (write_data k d s ≡ (crash, s))
      × (put_data k d s ≡ (crash, s))
      × (get_data k d s ≡ (crash, s))
unfolding read_data write_data put_data get_data store_data
negative_index_crashes k d s low word v =
    let r = get_fd-negative d.sfilefd k.opened true s.list low word (omega (arith, v.within)) in
    let w = get_fd-negative d.sfilefd k.opened false s.list low word (omega (arith, v.within)) in
    (ground arith, ground arith, ground arith, ground arith)
