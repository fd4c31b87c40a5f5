-- ===== src/Tests/Files.antt =====
-- Runs on the list of files.
use file_server.Base.{◌≡◌, refl, ◌⊎◌, true, some, [], ◌∷◌, ◌++◌, arith, take, get_elem?}
use file_server.Filemeta.{FileList, infos, IsValid}
use file_server.Filemeta.Index.{get_file_index_from_list, pwrites, add_writes}
use file_server.Filemeta.Index.Refine.{get_file_index-refines}
use file_server.Filemeta.Index.Stable.{get_file_index-keeps}
use file_server.Filemeta.Index.Catalog.{position, index, Distinct}
use file_server.Filemeta.Disk.{started, filelist_init, InitCalls}
use file_server.Filemeta.Disk.Restart.{IsSynced, get_file_index-IsSynced, restart_after_partial_add}
use file_server.Tests.Samples.{
  notes, other, idle_meta, notes_list, notes_list-IsValid, notes_list-IsSynced,
}

get_file_index-refines_example :
    let (r, l') = get_file_index_from_list other true notes_list in
    (r, infos l') ≡ index other true (infos notes_list)
get_file_index-refines_example = get_file_index-refines other true notes_list notes_list-IsValid

get_file_index-keeps_example :
    let l' = (get_file_index_from_list other true notes_list).1 in
    IsValid l' × Distinct (infos l') × (get_elem? (infos l') 0 ≡ some notes)
unfolding position
get_file_index-keeps_example =
    get_file_index-keeps other notes true notes_list 0 notes_list-IsValid (refl, tt) refl

abbrev all_well : InitCalls
all_well = record { opens = true; seeks = true; writes = true }

get_file_index-IsSynced_example : IsSynced (get_file_index_from_list other true notes_list).1
get_file_index-IsSynced_example =
    get_file_index-IsSynced other true notes_list notes_list-IsValid notes_list-IsSynced

restart_after_partial_add_example :
    (l' : FileList) × (filelist_init all_well 5
        (pwrites notes_list.file (take 1 (add_writes 1 (idle_meta other))))
      ≡ started l')
    × ((infos l' ≡ infos notes_list) ⊎ (infos l' ≡ infos notes_list ++ (other ∷ [])))
restart_after_partial_add_example =
    restart_after_partial_add all_well 5 1 (idle_meta other) notes_list refl (omega arith)
      notes_list-IsValid notes_list-IsSynced
