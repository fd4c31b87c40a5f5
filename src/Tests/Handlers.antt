-- ===== src/Tests/Handlers.antt =====
-- Runs of the command handlers.
use file_server.Base.{
  ℕ, zero, suc, ◌≡◌, refl, true, false, none, some, [], ◌∷◌, arith, get_elem?, replicate,
  length-replicate,
}
use file_server.Filemeta.{FileMeta, FileList, IsValid, infos, str_eq}
use file_server.Filemeta.Index.Catalog.{position}
use file_server.Filemeta.Index.Refine.{infos_of}
use file_server.Msg.{Commsg, command, op_read_reply, op_write_reply, op_put_reply}
use file_server.Worker.{reply, lock_units}
use file_server.Worker.Commands.{read_command, write_command, put_command, found_reply, sized_reply}
use file_server.Worker.Commands.Replies.{in_file, range_known, range_wraps, put_known}
use file_server.Worker.Commands.Locking.{Locks, IsUnits}
use file_server.Filemeta.Lock.{must_wait}
use file_server.Base.{Bool}
use file_server.Worker.Commands.Puts.{put_new}
use file_server.Tests.Samples.{
  notes, other, idle_meta, notes_list, notes_server, notes_list-IsValid, about,
}
use file_server.Tests.Samples.{notes_at}

other_new : position other.filename (infos notes_list) ≡ none
unfolding position str_eq
other_new = refl

range_known_example :
    (Locks 0 true
      (in_file 3_145_733 1_048_576 2_097_152)
      (idle_meta notes)
      (sized_reply op_read_reply 0 3_145_733)
      notes_server
      (read_command (about notes) notes_server))
    × (Locks 0 false
        (in_file 3_145_733 1_048_576 2_097_152)
        (idle_meta notes)
        (sized_reply op_write_reply 0 3_145_733)
        notes_server
        (write_command (about notes) notes_server))
    × IsUnits
        (in_file 3_145_733 1_048_576 2_097_152)
        (lock_units (in_file 3_145_733 1_048_576 2_097_152))
range_known_example =
    range_known (about notes) notes_server 0 (idle_meta notes) notes_list-IsValid notes_at refl
      (omega arith) (omega arith) (omega arith) (omega arith) (omega arith)

abbrev beyond : Commsg
beyond = record (about notes) { offset = 4_000_000; reqlen = 5 }

abbrev wrapping : Commsg
wrapping = record (about notes) { offset = 4_294_967_286; reqlen = 1000 }

range_wraps_example :
    Locks 0 true 1000
      (idle_meta notes)
      (sized_reply op_read_reply 0 3_145_733)
      notes_server
      (read_command wrapping notes_server)
range_wraps_example =
    range_wraps wrapping notes_server 0 (idle_meta notes) notes_list-IsValid notes_at refl
      (omega arith) (omega arith) (omega arith) (omega arith) (omega arith) (omega arith)

put_known_example :
    Locks 0 false 3_145_733
      (idle_meta notes)
      (found_reply op_put_reply 0)
      notes_server
      (put_command (about notes) notes_server)
    × (infos (put_command (about notes) notes_server).1.list ≡ infos notes_list)
put_known_example =
    put_known (about notes) notes_server 0 (idle_meta notes) notes_list-IsValid notes_at refl
      (omega arith) (omega arith)

put_new_example :
    let (o, s') = put_command (about other) notes_server in
    (m : FileMeta) × (o ≡ reply (command (found_reply op_put_reply 1)))
    × (infos s'.list ≡ notes ∷ other ∷ [])
    × (get_elem? s'.list.filearr 1 ≡ some m)
    × (m.fi ≡ other)
    × IsUnits 10 m.wcnt
    × (m.rcnt ≡ 0)
    × (m.jobs ≡ [])
    × ((read : Bool) → must_wait read m ≡ true)
put_new_example =
    put_new (about other) notes_server notes_list-IsValid other_new (omega arith) (omega arith)
      (omega arith)

-- 999 files of the name "b".
abbrev full_list : FileList
full_list = record notes_list { filearr = replicate 1000 (idle_meta other); cnt = 999 }

full_list-IsValid : IsValid full_list
full_list-IsValid = record {
  slots = omega (arith, length-replicate 1000 (idle_meta other));
  within = omega arith;
}

absent : (n k : ℕ) → position notes.filename (infos_of n (replicate k (idle_meta other))) ≡ none
unfolding position str_eq
absent zero k = refl
absent (suc n) zero = refl
absent (suc n) (suc k) = rw (absent n k) refl
