-- ===== src/Worker/Commands/Puts.antt =====
-- PUT of a name that is not in the list.
use file_server.Base.{
  suc, ◌+◌, ◌^◌, ◌≤◌, ◌<◌, Bool, true, ◌≡◌, refl, ap, ◌∙◌, false, none, some, [], ◌∷◌, ◌++◌, arith,
  length, get_elem?, set, length-set, get_elem?-set_self,
}
use file_server.Base.Word.{is_negative}
use file_server.Filemeta.{FileInfo, WaitJob, FileMeta, FileList, IsValid, infos, max_file}
use file_server.Filemeta.Index.{pwrites, add_writes, new_meta, stamp_at}
use file_server.Filemeta.Index.Catalog.{position}
use file_server.Filemeta.Index.Refine.{
  get_file_index-added, get_file_index-full, infos_of, infos_of-set, infos_of-set_fi,
}
use file_server.Filemeta.Lock.{take_lock, must_wait}
use file_server.Msg.{Commsg, command, op_put_reply, err_unknown, file_stripe}
use file_server.Worker.{Server, reply, lock_units, command_reply}
use file_server.Worker.Commands.{put_command, found_reply, lock_range}
use file_server.Worker.Commands.Locking.{Locks-free, lock_range-Locks, IsUnits, lock_units-IsUnits}

abbrev pub slot_of : FileInfo → FileList → FileMeta
slot_of info l = new_meta (stamp_at l.filearr l.cnt) info

abbrev pub with_slot : FileInfo → FileList → FileList
with_slot info l = record {
  filearr = set l.filearr l.cnt (slot_of info l);
  cnt = l.cnt + 1;
  file = pwrites l.file (add_writes l.cnt (slot_of info l));
}

-- A PUT of a new name into a well-formed list that has only its last slot left is answered by
-- ERR_UNKNOWN, and nothing changes.
pub put_full :
    (c : Commsg) (s : Server)
    → IsValid s.list
    → position c.fi.filename (infos s.list) ≡ none
    → suc s.list.cnt ≡ max_file
    → put_command c s ≡ (reply (command (command_reply op_put_reply err_unknown)), s)
unfolding put_command
put_full c s v new full = let miss = get_file_index-full c.fi s.list v new full in ground arith

put_command-new :
    (c : Commsg) (s : Server)
    → IsValid s.list
    → position c.fi.filename (infos s.list) ≡ none
    → suc s.list.cnt < max_file
    → put_command c s
      ≡ lock_range op_put_reply s.list.cnt c.fi.filesize false
          (found_reply op_put_reply s.list.cnt)
          (record s { list = with_slot c.fi s.list })
unfolding put_command
put_command-new c s v new room =
    let made = get_file_index-added c.fi s.list v new room in ground (arith, made)

slot_free : (info : FileInfo) (l : FileList) → must_wait false (slot_of info l) ≡ false
unfolding must_wait
slot_free info l = refl

abbrev pub put_job : Commsg → WaitJob
put_job c = record { read = false; cnt = lock_units c.fi.filesize }

pub put_command-added :
    (c : Commsg) (s : Server)
    → IsValid s.list
    → position c.fi.filename (infos s.list) ≡ none
    → suc s.list.cnt < max_file
    → 0 < c.fi.filesize
    → c.fi.filesize < 2 ^ 31
    → let l = with_slot c.fi s.list in
      put_command c s ≡ (
        reply (command (found_reply op_put_reply s.list.cnt)),
        record s {
          list = record l {
            filearr = set l.filearr s.list.cnt (take_lock (put_job c) (slot_of c.fi s.list));
          };
        },
      )
put_command-added c s v new room p small =
    put_command-new c s v new room
    ∙ Locks-free s.list.cnt c.fi.filesize false (slot_of c.fi s.list) _ _ _ (slot_free c.fi s.list)
        (lock_range-Locks op_put_reply s.list.cnt c.fi.filesize false
          (found_reply op_put_reply s.list.cnt) (record s { list = with_slot c.fi s.list })
          (slot_of c.fi s.list) (omega arith) (omega arith)
          (get_elem?-set_self s.list.filearr s.list.cnt (slot_of c.fi s.list)
            (omega (arith, v.slots)))
          (ground arith))

-- A PUT of a name that is not in a well-formed list with room, for a file of at least one byte and
-- at most 2 GB less a stripe: the file is added behind the others with the size of the message, the
-- reply names its index, and its lock is taken at once by a writer, with one unit for each stripe
-- of 1 MB, the last of which may be shorter. No reader holds it, nobody waits, and the next reader
-- and the next writer have to.
pub put_new :
    (c : Commsg) (s : Server)
    → IsValid s.list
    → position c.fi.filename (infos s.list) ≡ none
    → suc s.list.cnt < max_file
    → 0 < c.fi.filesize
    → c.fi.filesize + file_stripe ≤ 2 ^ 31
    → let (o, s') = put_command c s in
      (m : FileMeta) × (o ≡ reply (command (found_reply op_put_reply s.list.cnt)))
      × (infos s'.list ≡ infos s.list ++ (c.fi ∷ []))
      × (get_elem? s'.list.filearr s.list.cnt ≡ some m)
      × (m.fi ≡ c.fi)
      × IsUnits c.fi.filesize m.wcnt
      × (m.rcnt ≡ 0)
      × (m.jobs ≡ [])
      × ((read : Bool) → must_wait read m ≡ true)
unfolding take_lock must_wait
put_new c s v new room p small =
    let arr = s.list.filearr in
    let n = s.list.cnt in
    let slot = slot_of c.fi s.list in
    let m = take_lock (put_job c) slot in
    let inside : n < length arr = omega (arith, v.slots) in
    let inside' : n < length (set arr n slot) = omega (arith, length-set arr n slot) in
    let next : n + 1 ≡ suc n = omega arith in
    rw (put_command-added c s v new room p (omega arith)) (
      m,
      refl,
      infos_of-set_fi (n + 1) n (set arr n slot) slot m (get_elem?-set_self arr n slot inside) refl
          ∙ ap (λ k. infos_of k (set arr n slot)) next
          ∙ infos_of-set n arr slot inside,
      get_elem?-set_self (set arr n slot) n m inside',
      refl,
      units,
      refl,
      refl,
      waits,
    )
  where
    units : IsUnits c.fi.filesize (lock_units c.fi.filesize)
    units = lock_units-IsUnits c.fi.filesize small

    waits : (read : Bool) → must_wait read (take_lock (put_job c) (slot_of c.fi s.list)) ≡ true
    waits true = ground (arith, units.0, units.1)
    waits false = ground (arith, units.0, units.1)

-- For a size in the last stripe below 2 GB the number of units overflows: the lock that a PUT of a
-- new name takes is negative, and makes neither a reader nor a writer wait.
put_near_2gb :
    (c : Commsg) (s : Server)
    → IsValid s.list
    → position c.fi.filename (infos s.list) ≡ none
    → suc s.list.cnt < max_file
    → 2 ^ 31 < c.fi.filesize + file_stripe
    → c.fi.filesize < 2 ^ 31
    → let (o, s') = put_command c s in
      (m : FileMeta) × (o ≡ reply (command (found_reply op_put_reply s.list.cnt)))
      × (get_elem? s'.list.filearr s.list.cnt ≡ some m)
      × (is_negative m.wcnt ≡ true)
      × ((read : Bool) → must_wait read m ≡ false)
unfolding take_lock must_wait
put_near_2gb c s v new room large small =
    let arr = s.list.filearr in
    let n = s.list.cnt in
    let slot = slot_of c.fi s.list in
    let inside' : n < length (set arr n slot) = omega (arith, v.slots, length-set arr n slot) in
    rw (put_command-added c s v new room (omega arith) small) (
      take_lock (put_job c) slot,
      refl,
      get_elem?-set_self (set arr n slot) n (take_lock (put_job c) slot) inside',
      overflows,
      free,
    )
  where
    overflows : is_negative (lock_units c.fi.filesize) ≡ true
    overflows = ground arith

    free : (read : Bool) → must_wait read (take_lock (put_job c) (slot_of c.fi s.list)) ≡ false
    free true = ground (arith, overflows)
    free false = ground (arith, overflows)
