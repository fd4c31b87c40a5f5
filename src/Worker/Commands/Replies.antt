-- ===== src/Worker/Commands/Replies.antt =====
-- The replies to READ, WRITE, PUT and GET commands.
use file_server.Base.{
  ℕ, ◌+◌, ◌-◌, ◌^◌, ◌≤◌, ◌<◌, ◌≡◌, refl, inl, inr, true, false, none, some, arith, if◌then◌else◌,
  leb, get_elem?,
}
use file_server.Base.Word.{is_positive}
use file_server.Filemeta.{FileMeta, IsValid, infos}
use file_server.Filemeta.Index.Catalog.{position}
use file_server.Filemeta.Index.Refine.{
  get_file_index-known, get_file_index-unknown, index-lt-cnt, infos_of-set_fi,
}
use file_server.Msg.{
  Commsg, command, err_nofile, op_read_reply, op_write_reply, op_get_reply, op_put_reply,
  file_stripe,
}
use file_server.Worker.{Server, Outcome, reply, range_remain, command_reply, lock_units}
use file_server.Worker.Commands.{
  read_command, write_command, put_command, get_command, lock_range, found_reply, sized_reply,
}
use file_server.Worker.Commands.Locking.{
  get_filemeta-known, Locks, IsUnits, lock_units-IsUnits, lock_range-Locks, take_lock-fi, park-fi,
}

-- READ, WRITE and GET of a name that is not in a well-formed list are answered by ERR_NOFILE, and
-- nothing changes.
pub unknown_file :
    (c : Commsg) (s : Server)
    → IsValid s.list
    → position c.fi.filename (infos s.list) ≡ none
    → (read_command c s ≡ (reply (command (command_reply op_read_reply err_nofile)), s))
      × (write_command c s ≡ (reply (command (command_reply op_write_reply err_nofile)), s))
      × (get_command c s ≡ (reply (command (command_reply op_get_reply err_nofile)), s))
unfolding read_command write_command get_command
unknown_file c s v e =
    let miss = get_file_index-unknown c.fi s.list v e in (ground arith, ground arith, ground arith)

-- The bytes of a request that lie inside of the file.
abbrev pub in_file : ℕ → ℕ → ℕ → ℕ
in_file filesize offset reqlen =
    if leb (offset + reqlen) filesize then reqlen else filesize - offset

module _ (c : Commsg) (s : Server) (i : ℕ) (m : FileMeta) (v : IsValid s.list)
    (at : position c.fi.filename (infos s.list) ≡ some i)
    (e : get_elem? s.list.filearr i ≡ some m) where
  i_in : i < s.list.cnt
  i_in = index-lt-cnt c.fi.filename s.list i v at

  small_count : s.list.cnt < 2 ^ 31
  small_count = omega (arith, v.within)

  get_command-lock :
      get_command c s
      ≡ lock_range op_get_reply i m.fi.filesize true (sized_reply op_get_reply i m.fi.filesize) s
  unfolding get_command
  get_command-lock = ground (
    arith,
    get_file_index-known c.fi false s.list i v at,
    get_filemeta-known i s.list m i_in small_count e,
  )

  read_command-lock :
      read_command c s
      ≡ lock_range op_read_reply i
          (range_remain m.fi.filesize c.offset c.reqlen)
          true
          (sized_reply op_read_reply i m.fi.filesize)
          s
  unfolding read_command
  read_command-lock = ground (
    arith,
    get_file_index-known c.fi false s.list i v at,
    get_filemeta-known i s.list m i_in small_count e,
  )

  write_command-lock :
      write_command c s
      ≡ lock_range op_write_reply i
          (range_remain m.fi.filesize c.offset c.reqlen)
          false
          (sized_reply op_write_reply i m.fi.filesize)
          s
  unfolding write_command
  write_command-lock = ground (
    arith,
    get_file_index-known c.fi false s.list i v at,
    get_filemeta-known i s.list m i_in small_count e,
  )

  put_command-lock :
      put_command c s ≡ lock_range op_put_reply i c.fi.filesize false (found_reply op_put_reply i) s
  unfolding put_command
  put_command-lock = ground (arith, get_file_index-known c.fi true s.list i v at)

  -- A GET of a known file of a well-formed list with at least one byte and less than 2 GB takes the
  -- lock to read the whole file, or, where it has to wait, is queued in the file's queue; the reply
  -- names the file and its size.
  pub get_known :
      0 < m.fi.filesize
      → m.fi.filesize < 2 ^ 31
      → Locks i true m.fi.filesize m (sized_reply op_get_reply i m.fi.filesize) s (get_command c s)
  get_known p small =
      rw get_command-lock
        (lock_range-Locks op_get_reply i m.fi.filesize true _ s m i_in small_count e (ground arith))

  -- A READ and a WRITE of a known file of a well-formed list, for a range of at least one byte that
  -- starts inside of the file, with an end that does not overflow and a file of at most 2 GB less a
  -- stripe, lock it for the bytes of the range that the file has, a READ for reading and a WRITE
  -- for writing, with one unit for each stripe of 1 MB of these bytes, the last of which may be
  -- shorter. The lock is taken, or, where it has to wait, the request is queued; the reply names
  -- the file and its size.
  pub range_known :
      c.offset < m.fi.filesize
      → 0 < c.reqlen
      → m.fi.filesize + file_stripe ≤ 2 ^ 31
      → c.offset + c.reqlen < 2 ^ 32
      → c.reqlen < 2 ^ 32
      → let n = in_file m.fi.filesize c.offset c.reqlen in
        (Locks i true n m (sized_reply op_read_reply i m.fi.filesize) s (read_command c s))
        × (Locks i false n m (sized_reply op_write_reply i m.fi.filesize) s (write_command c s))
        × IsUnits n (lock_units n)
  range_known inside some_len small fits word =
      let n : range_remain m.fi.filesize c.offset c.reqlen
          ≡ in_file m.fi.filesize c.offset c.reqlen =
        ground arith in
      (
        rw (read_command-lock, n)
            (lock_range-Locks op_read_reply i _ true _ s m i_in small_count e (ground arith)),
        rw (write_command-lock, n)
            (lock_range-Locks op_write_reply i _ false _ s m i_in small_count e (ground arith)),
        lock_units-IsUnits (in_file m.fi.filesize c.offset c.reqlen) (ground arith),
      )

  -- A READ and a WRITE of a known file of a well-formed list, for a range that starts at the end of
  -- the file or behind it by at most 2 GB, with an end that does not overflow, are answered by
  -- ERR_NOFILE, and nothing changes.
  pub range_outside :
      m.fi.filesize ≤ c.offset
      → c.offset ≤ m.fi.filesize + 2 ^ 31
      → 0 < c.reqlen
      → c.offset + c.reqlen < 2 ^ 32
      → (read_command c s ≡ (reply (command (command_reply op_read_reply err_nofile)), s))
        × (write_command c s ≡ (reply (command (command_reply op_write_reply err_nofile)), s))
  unfolding lock_range
  range_outside behind near some_len fits =
      let n : is_positive (range_remain m.fi.filesize c.offset c.reqlen) ≡ false = ground arith in
      (rw (read_command-lock, n) refl, rw (write_command-lock, n) refl)

  -- The sum of offset and length is not guarded against overflow: a READ of a known file of a
  -- well-formed list, for a range behind the end of the file whose length is below 2 GB and whose
  -- sum overflows to at most the file's size, is locked for all of its length instead of being
  -- refused.
  pub range_wraps :
      m.fi.filesize ≤ c.offset
      → c.offset < 2 ^ 32
      → 0 < c.reqlen
      → c.reqlen < 2 ^ 31
      → 2 ^ 32 ≤ c.offset + c.reqlen
      → c.offset + c.reqlen ≤ m.fi.filesize + 2 ^ 32
      → Locks i true c.reqlen m (sized_reply op_read_reply i m.fi.filesize) s (read_command c s)
  range_wraps behind word some_len small wraps low =
      let n : range_remain m.fi.filesize c.offset c.reqlen ≡ c.reqlen = ground arith in
      rw (read_command-lock, n)
        (lock_range-Locks op_read_reply i c.reqlen true _ s m i_in small_count e (ground arith))

  -- A PUT of a known name of a well-formed list, for a size of at least one byte and less than 2
  -- GB, locks the file for writing that size, or is queued, and leaves the list's infos as they
  -- are: the new size is not recorded.
  pub put_known :
      0 < c.fi.filesize
      → c.fi.filesize < 2 ^ 31
      → Locks i false c.fi.filesize m (found_reply op_put_reply i) s (put_command c s)
        × (infos (put_command c s).1.list ≡ infos s.list)
  put_known p small = (rw put_command-lock locks, rw put_command-lock (kept _ locks))
    where
      locks :
          Locks i false c.fi.filesize m
            (found_reply op_put_reply i)
            s
            (lock_range op_put_reply i c.fi.filesize false (found_reply op_put_reply i) s)
      locks =
          lock_range-Locks op_put_reply i c.fi.filesize false _ s m i_in small_count e
            (ground arith)

      kept :
          (r : Outcome × Server)
          → Locks i false c.fi.filesize m (found_reply op_put_reply i) s r
          → infos r.1.list ≡ infos s.list
      kept r (inl (_, q)) =
          rw q (infos_of-set_fi s.list.cnt i s.list.filearr m _ e (take_lock-fi _ m))
      kept r (inr (_, q)) = rw q (infos_of-set_fi s.list.cnt i s.list.filearr m _ e (park-fi _ m))
