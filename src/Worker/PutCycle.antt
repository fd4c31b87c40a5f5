-- ===== src/Worker/PutCycle.antt =====
-- A PUT from the command that added the file to its last transfer.
use file_server.Base.{
  suc, ◌+◌, ◌^◌, ◌≤◌, ◌<◌, ◌≡◌, refl, sym, ap, subst, ◌∙◌, false, none, some, List, [], ◌++◌, map,
  arith, length, length-set, All, get_elem?, set, get_elem?-set_self,
}
use file_server.Filemeta.{FileMeta, FileList, IsValid, infos, max_file}
use file_server.Filemeta.Index.Catalog.{position}
use file_server.Filemeta.Lock.{open_fd, take_lock}
use file_server.Msg.{Commsg, Datamsg, file_stripe}
use file_server.Worker.{Aio, Server, Kernel, lock_units}
use file_server.Worker.Commands.{put_command}
use file_server.Worker.Commands.Puts.{put_command-added, put_job, slot_of, with_slot}
use file_server.Worker.Cycle.{IsIdle, units_pos}
use file_server.Worker.Events.{Round, events_loop}
use file_server.Worker.Events.Release.{begin}
use file_server.Worker.PutRun.{
  put_all, IsWilling, put_transfer, Stored, put_all-Stored, put_all-aios, Frees, Stored-Frees,
}

-- The server once the command has added the file.
abbrev added : Commsg → Server → Server
added c s =
    let l = with_slot c.fi s.list in
    record s {
      list = record l {
        filearr = set l.filearr s.list.cnt (take_lock (put_job c) (slot_of c.fi s.list));
      };
    }

fresh_fd :
    (k : Kernel) (c : Commsg) (l : FileList)
    → (open_fd false k.opened (take_lock (put_job c) (slot_of c.fi l))).0 ≡ k.opened
unfolding open_fd take_lock
fresh_fd k c l = refl

-- After the command for a new name, all writes go to the descriptor that the kernel opens.
pub put_cycle-aios :
    (k : Kernel) (c : Commsg) (ds : List Datamsg) (s : Server)
    → IsValid s.list
    → position c.fi.filename (infos s.list) ≡ none
    → suc s.list.cnt < max_file
    → 0 < c.fi.filesize
    → c.fi.filesize < 2 ^ 31
    → IsWilling k
    → All (λ d. d.sfilefd ≡ s.list.cnt) ds
    → (put_all k ds (put_command c s).1).aios ≡ s.aios ++ map (put_transfer k.opened) ds
put_cycle-aios k c ds s v new room p small w all =
    let i = s.list.cnt in
    let arr = set s.list.filearr i (slot_of c.fi s.list) in
    let m = take_lock (put_job c) (slot_of c.fi s.list) in
    let inside : i < length arr =
      omega (arith, v.slots, length-set s.list.filearr i (slot_of c.fi s.list)) in
    ap (λ z. (put_all k ds z).aios) (ap (λ r. r.1) (put_command-added c s v new room p small))
    ∙ put_all-aios k i k.opened ds (added c s) m w all (omega arith) (omega arith)
        (get_elem?-set_self arr i m inside) (fresh_fd k c s.list)

-- Take a well-formed list with room, a PUT command for a new name with at least one byte and at
-- most 2 GB less a stripe, a kernel that opens a file and takes a transfer, and data messages for
-- the new file's index, as many as the lock has units. When the command and then all messages have
-- been handled, one transfer for each unit has been submitted. The event thread's round over them
-- hands on their answers in order and signals nobody, and at its end nobody holds the new file or
-- waits for it.
pub put_cycle :
    (k : Kernel) (c : Commsg) (ds : List Datamsg) (s : Server)
    → IsValid s.list
    → position c.fi.filename (infos s.list) ≡ none
    → suc s.list.cnt < max_file
    → 0 < c.fi.filesize
    → c.fi.filesize + file_stripe ≤ 2 ^ 31
    → IsWilling k
    → All (λ d. d.sfilefd ≡ s.list.cnt) ds
    → length ds ≡ lock_units c.fi.filesize
    → let s' = put_all k ds (put_command c s).1 in
      (taken : List Aio) × (r : Round) × (m' : FileMeta) × (s'.aios ≡ s.aios ++ taken)
      × (length taken ≡ lock_units c.fi.filesize)
      × (events_loop taken (begin s'.list) ≡ some r)
      × (r.replies ≡ map (λ a. a.answer) taken)
      × (r.woken ≡ [])
      × (get_elem? r.list.filearr s.list.cnt ≡ some m')
      × IsIdle m'
unfolding take_lock
put_cycle k c ds s v new room p small w all len =
    let i = s.list.cnt in
    let arr = set s.list.filearr i (slot_of c.fi s.list) in
    let m = take_lock (put_job c) (slot_of c.fi s.list) in
    let (q, one, few) = units_pos c.fi.filesize p small in
    let inside : i < length arr =
      omega (arith, v.slots, length-set s.list.filearr i (slot_of c.fi s.list)) in
    let cmd = ap (λ r. r.1) (put_command-added c s v new room p (omega arith)) in
    subst (λ z. Frees i (lock_units c.fi.filesize) s (put_all k ds z)) (sym cmd)
      (Stored-Frees i (lock_units c.fi.filesize) q m (added c s) (put_all k ds (added c s))
        (subst (λ n. Stored i n m (added c s) (put_all k ds (added c s))) len
          (put_all-Stored k i ds (added c s) m w all (omega arith) (omega arith)
            (get_elem?-set_self arr i m inside)))
        (omega arith) (omega arith) one (omega (arith, few)) refl refl refl)
