-- ===== src/Worker/Cycle.antt =====
-- A GET from its command to its last transfer, on a file that nobody else uses.
use file_server.Base.{
  ℕ, suc, ◌+◌, ◌-◌, ◌^◌, ◌≤◌, ◌<◌, ◌≡◌, refl, ap, subst, ◌∙◌, inl, inr, true, false, some, List, [],
  ◌∷◌, ◌++◌, map, arith, length-set, All, get_elem?, set, get_elem?-set_self,
}
use file_server.Base.Word.{is_negative}
use file_server.Filemeta.{WaitJob, FileMeta, FileList, IsValid, infos}
use file_server.Filemeta.Index.Catalog.{position}
use file_server.Filemeta.Index.Refine.{index-lt-cnt}
use file_server.Filemeta.Lock.{must_wait, take_lock, open_fd}
use file_server.Filemeta.Lock.Units.{with_counter}
use file_server.Msg.{Commsg, Datamsg, command, file_stripe, op_get_reply}
use file_server.Worker.{Aio, Server, Kernel, Outcome, no_reply, reply, lock_units}
use file_server.Worker.Commands.{get_command, sized_reply}
use file_server.Worker.Commands.Replies.{get_known}
use file_server.Worker.Commands.Locking.{Locks-free, take_lock-fi}
use file_server.Worker.Transfers.{get_data}
use file_server.Worker.Transfers.Stripes.{Tiles, IsRead}
use file_server.Worker.Transfers.Whole.{Sends, get_data-Sends, opened_list}
use file_server.Worker.Events.{Round, events_loop}
use file_server.Worker.Events.Release.{IsFor, begin, events_loop-frees, lt_of_get}

-- Nobody holds the file, and nobody waits for it.
pub record IsIdle (m : FileMeta) : Type 0 where
  pub rcnt : m.rcnt ≡ 0
  pub wcnt : m.wcnt ≡ 0
  pub jobs : m.jobs ≡ []

abbrev pub reader : ℕ → WaitJob
reader n = record { read = true; cnt = n }

abbrev locked_list : ℕ → FileMeta → FileList → FileList
locked_list i m l = record l {
  filearr = set l.filearr i (take_lock (reader (lock_units m.fi.filesize)) m);
}

IsFor-of_IsRead : (op i fd : ℕ) (ts : List Aio) → All (IsRead op i fd) ts → All (IsFor i true) ts
IsFor-of_IsRead op i fd [] h = tt
IsFor-of_IsRead op i fd (t ∷ ts) h =
    ((ap (λ a. a.answer.sfilefd) h.0, ap (λ a. a.reads) h.0), IsFor-of_IsRead op i fd ts h.1)

opened-locked :
    (i n opened : ℕ) (m : FileMeta)
    → IsIdle m
    → n < 2 ^ 31
    → let m' = (open_fd true opened (take_lock (reader n) m)).1 in
      (m' ≡ with_counter true n m') × (m'.wcnt ≡ 0) × (m'.jobs ≡ [])
unfolding open_fd take_lock
opened-locked i n opened m idle small = (ground arith, ground arith, ground arith)

idle-free : (m : FileMeta) → IsIdle m → must_wait true m ≡ false
unfolding must_wait
idle-free m idle = ground arith

locked-IsValid : (i : ℕ) (m : FileMeta) (l : FileList) → IsValid l → IsValid (locked_list i m l)
locked-IsValid i m l v =
    ground (arith, length-set l.filearr i (take_lock (reader (lock_units m.fi.filesize)) m))

pub units_pos :
    (n : ℕ) → 0 < n → n + file_stripe ≤ 2 ^ 31 → (k : ℕ) × (lock_units n ≡ suc k) × (k < 2 ^ 30)
units_pos n p small = (lock_units n - 1, ground arith, ground arith)

module _ (k : Kernel) (c : Commsg) (d : Datamsg) (s : Server) (m : FileMeta) (v : IsValid s.list)
    (at : position c.fi.filename (infos s.list) ≡ some d.sfilefd)
    (e : get_elem? s.list.filearr d.sfilefd ≡ some m) (idle : IsIdle m) (p : 0 < m.fi.filesize)
    (small : m.fi.filesize + file_stripe ≤ 2 ^ 31) where
  abbrev i : ℕ
  i = d.sfilefd

  abbrev n : ℕ
  n = lock_units m.fi.filesize

  abbrev m1 : FileMeta
  m1 = take_lock (reader n) m

  abbrev after : Server
  after = record s { list = locked_list i m s.list }

  -- The command is answered at once, with the file's index and size.
  get_command-idle :
      get_command c s ≡ (reply (command (sized_reply op_get_reply i m.fi.filesize)), after)
  get_command-idle =
      Locks-free i m.fi.filesize true m _ s _ (idle-free m idle)
        (get_known c s i m v at e p (omega arith))

  i_in : i < s.list.cnt
  i_in = index-lt-cnt c.fi.filename s.list i v at

  at_m1 : get_elem? after.list.filearr i ≡ some m1
  at_m1 = get_elem?-set_self s.list.filearr i m1 (lt_of_get s.list.filearr i m e)

  same_fi : m1.fi ≡ m.fi
  same_fi = take_lock-fi (reader n) m

  abbrev m2 : FileMeta
  m2 = (open_fd true k.opened m1).1

  -- The handler's result is a whole transfer of the file that leaves the file idle: it returns NULL;
  -- its transfers tile the file; and the event thread's round over them hands on their answers in
  -- order, signals nobody, and ends with nobody holding the file or waiting for it.
  abbrev pub IsWhole : Outcome × Server → Type 0
  IsWhole (o, s') =
      (taken : List Aio) × (r : Round) × (m' : FileMeta) × (o ≡ no_reply)
      × (s'.aios ≡ s.aios ++ taken)
      × Tiles 0 m.fi.filesize taken
      × All (IsRead op_get_reply i (open_fd true k.opened m1).0) taken
      × (events_loop taken (begin s'.list) ≡ some r)
      × (r.replies ≡ map (λ a. a.answer) taken)
      × (r.woken ≡ [])
      × (get_elem? r.list.filearr i ≡ some m')
      × IsIdle m'

  IsWhole-of_Sends :
      ((j : ℕ) → k.submits j ≡ true)
      → (r : Outcome × Server)
      → Sends k d after m1 i_in (locked-IsValid i m s.list v) at_m1 op_get_reply 0 m.fi.filesize r
      → IsWhole r
  IsWhole-of_Sends all r (taken, st, reads, inr (_, j, _, no_room, _)) = cc (all j)
  IsWhole-of_Sends all r (taken, st, reads, inl (o, tiles, len)) =
      let (held, no_writer, nobody) =
        opened-locked i n k.opened m idle (omega (arith, units.1, units.2)) in
      let at2 =
        get_elem?-set_self after.list.filearr i m2 (lt_of_get after.list.filearr i m1 at_m1) in
      let one = units.1 in
      let frees =
        events_loop-frees i true taken opened m2 units.0
          (IsFor-of_IsRead op_get_reply i _ taken reads) i_in (omega (arith, v.within)) at2
          (len ∙ one) (omega (arith, units.2)) (held ∙ ap (λ u. with_counter true u m2) one)
          nobody in
      (
        taken,
        _,
        with_counter true 0 m2,
        o,
        ap (λ x. x.aios) st,
        tiles,
        reads,
        ap (λ x. events_loop taken (begin x.list)) st ∙ frees,
        refl,
        refl,
        get_elem?-set_self opened.filearr i (with_counter true 0 m2)
            (lt_of_get opened.filearr i m2 at2),
        record { rcnt = refl; wcnt = no_writer; jobs = nobody },
      )
    where
      opened : FileList
      opened = opened_list i true k.opened m1 after.list

      units : (q : ℕ) × (lock_units m.fi.filesize ≡ suc q) × (q < 2 ^ 30)
      units = units_pos m.fi.filesize p small

  -- Take a list that is well formed, a file of at least one byte and at most 2 GB less a stripe
  -- that nobody holds or waits for, a GET command of its name, a data message with its index, and a
  -- kernel that returns a descriptor and takes every transfer. Then the command is answered at once
  -- with the index and the size, the data message is answered by NULL, and its transfers tile the
  -- file. The event thread's round over these transfers hands on their answers in order and signals
  -- nobody, and at its end again nobody holds the file or waits for it.
  pub get_cycle :
      is_negative (open_fd true k.opened m1).0 ≡ false
      → ((j : ℕ) → k.submits j ≡ true)
      → (get_command c s ≡ (reply (command (sized_reply op_get_reply i m.fi.filesize)), after))
        × IsWhole (get_data k d (get_command c s).1)
  get_cycle ok all = (get_command-idle, rw get_command-idle (IsWhole-of_Sends all _ sent))
    where
      sent :
          Sends k d after m1 i_in
            (locked-IsValid i m s.list v)
            at_m1
            op_get_reply
            0
            m.fi.filesize
            (get_data k d after)
      sent =
          subst
            (λ z.
              Sends k d after m1 i_in (locked-IsValid i m s.list v) at_m1 op_get_reply 0 z
                (get_data k d after))
            (ap (λ f. f.filesize) same_fi)
            (get_data-Sends k d after m1 i_in (locked-IsValid i m s.list v) at_m1 ok
              (rw same_fi small))
