-- ===== src/Filemeta/Disk/Restart.antt =====
-- The meta file after a call and between the writes of an addition, and what a start makes of it.
use file_server.Base.{
  ℕ, zero, suc, ◌≤◌, ◌≡◌, refl, sym, ◌∙◌, ap, ◌⊎◌, inl, inr, Bool, true, List, [], ◌∷◌, ◌++◌, arith,
  length, take, set, length-set,
}
use file_server.Filemeta.{FileInfo, FileMeta, MetaFile, FileList, IsValid, infos, max_file}
use file_server.Filemeta.Index.{
  DiskWrite, pwrite, pwrites, add_writes, get_file_index_from_list, new_meta, stamp_at,
}
use file_server.Filemeta.Index.Refine.{infos_of, infos_of-set}
use file_server.Filemeta.Disk.{InitCalls, started, filelist_init, reset_metas, listsize, loop_cnt}

-- The infos that the meta file holds.
abbrev pub stored : MetaFile → List FileInfo
stored f = infos_of f.stored_cnt f.slots

-- The meta file is whole, and holds the list that is in memory.
pub record IsSynced (l : FileList) : Type 0 where
  pub whole : listsize ≤ l.file.size
  pub room : max_file ≤ length l.file.slots
  pub count : l.file.stored_cnt ≡ l.cnt
  pub same : infos_of l.cnt l.file.slots ≡ infos l

length-reset_metas : (now n : ℕ) (arr : List FileMeta) → length (reset_metas now n arr) ≡ length arr
unfolding reset_metas
length-reset_metas now zero arr = refl
length-reset_metas now (suc n) [] = refl
length-reset_metas now (suc n) (m ∷ arr) = ap suc (length-reset_metas now n arr)

infos_of-reset_metas :
    (now n : ℕ) (arr : List FileMeta) → infos_of n (reset_metas now n arr) ≡ infos_of n arr
unfolding reset_metas
infos_of-reset_metas now zero arr = refl
infos_of-reset_metas now (suc n) [] = refl
infos_of-reset_metas now (suc n) (m ∷ arr) = ap (λ fs. m.fi ∷ fs) (infos_of-reset_metas now n arr)

-- A start from a meta file that can be opened, has the size of the list, all its slots and a count
-- below the number of slots succeeds; the infos are those of the file, and the list is well formed
-- and agrees with the file.
pub filelist_init-stored :
    (calls : InitCalls) (now : ℕ) (f : MetaFile)
    → calls.opens ≡ true
    → listsize ≤ f.size
    → max_file ≤ length f.slots
    → suc f.stored_cnt ≤ max_file
    → (l : FileList) × (filelist_init calls now f ≡ started l)
      × (infos l ≡ stored f)
      × IsValid l
      × IsSynced l
unfolding filelist_init
filelist_init-stored calls now f o w r c = (
  l,
  ground (arith, counted),
  infos_of-reset_metas now f.stored_cnt f.slots,
  omega (arith, length-reset_metas now f.stored_cnt f.slots),
  record {
    whole = w;
    room = r;
    count = refl;
    same = sym (infos_of-reset_metas now f.stored_cnt f.slots);
  },
)
  where
    counted : loop_cnt f.stored_cnt ≡ f.stored_cnt
    counted = ground arith

    l : FileList
    l = record { filearr = reset_metas now f.stored_cnt f.slots; cnt = f.stored_cnt; file = f }

take-nil : (k : ℕ) → take {A = DiskWrite} k [] ≡ []
take-nil zero = refl
take-nil (suc k) = refl

infos_of-set_same :
    (n : ℕ) (arr : List FileMeta) (m : FileMeta) → infos_of n (set arr n m) ≡ infos_of n arr
infos_of-set_same n [] m = refl
infos_of-set_same zero (x ∷ arr) m = refl
infos_of-set_same (suc n) (x ∷ arr) m = ap (λ fs. x.fi ∷ fs) (infos_of-set_same n arr m)

-- A call on a well-formed list that agrees with its meta file leaves a list that agrees with its
-- meta file.
pub get_file_index-IsSynced :
    (info : FileInfo) (b : Bool) (l : FileList)
    → IsValid l
    → IsSynced l
    → IsSynced (get_file_index_from_list info b l).1
unfolding get_file_index_from_list pwrite
get_file_index-IsSynced info b l v s = ground (
  arith,
  length-set l.file.slots l.cnt slot,
  infos_of-set l.cnt l.filearr slot,
  infos_of-set l.cnt l.file.slots slot,
)
  where
    slot : FileMeta
    slot = new_meta (stamp_at l.filearr l.cnt) info

-- The meta file after the first `k` writes of an addition: as before, or with the new file.
partial_add-stored :
    (k : ℕ) (m : FileMeta) (l : FileList)
    → suc (suc l.cnt) ≤ max_file
    → IsValid l
    → IsSynced l
    → let f = pwrites l.file (take k (add_writes l.cnt m)) in
      ((stored f ≡ infos l) ⊎ (stored f ≡ infos l ++ (m.fi ∷ [])))
      × (listsize ≤ f.size)
      × (max_file ≤ length f.slots)
      × (suc f.stored_cnt ≤ max_file)
unfolding pwrites
partial_add-stored zero m l r v s = ground arith
partial_add-stored (suc zero) m l r v s = (
  inl (rw s.count (infos_of-set_same l.cnt l.file.slots m ∙ s.same)),
  s.whole,
  rw (length-set l.file.slots l.cnt m) s.room,
  omega (arith, v.within),
)
partial_add-stored (suc (suc k)) m l r v s = rw (take-nil k) (
  inr (ground (arith, infos_of-set l.cnt l.file.slots m)),
  s.whole,
  rw (length-set l.file.slots l.cnt m) s.room,
  omega arith,
)

-- Where the list is well formed and has room, and the meta file agrees with it, a stop of the
-- server after any number of the writes of an addition is harmless: the next start that can open
-- the file succeeds, and finds the old infos, or the old infos with the new file at their end.
pub restart_after_partial_add :
    (calls : InitCalls) (now k : ℕ) (m : FileMeta) (l : FileList)
    → calls.opens ≡ true
    → suc (suc l.cnt) ≤ max_file
    → IsValid l
    → IsSynced l
    → (l' : FileList) × (filelist_init calls now (pwrites l.file (take k (add_writes l.cnt m)))
        ≡ started l')
      × ((infos l' ≡ infos l) ⊎ (infos l' ≡ infos l ++ (m.fi ∷ [])))
restart_after_partial_add calls now k m l o r v s =
    let (which, whole, room, count) = partial_add-stored k m l r v s in
    let (l', begun, read, _, _) = filelist_init-stored calls now _ o whole room count in
    (l', begun, ground arith)
