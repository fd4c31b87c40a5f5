-- ===== src/Filemeta/Index/Refine.antt =====
-- The array of slots against the list of infos of Catalog.
use file_server.Base.{
  ℕ, zero, suc, ◌+◌, ◌≤◌, ◌<◌, ◌≡◌, refl, ap, inl, inr, Bool, true, false, get_elem?, none, some,
  List, [], ◌∷◌, ◌++◌, map, arith, length, take, set, length-set, Option-cases,
}
use file_server.Filemeta.{FileInfo, FileMeta, FileList, IsValid, infos, max_file}
use file_server.Filemeta.Index.{
  pwrites, add_writes, find_index, get_file_index_from_list, new_meta, stamp_at,
}
use file_server.Filemeta.Index.Catalog.{index, position, position-lt}

abbrev pub infos_of : ℕ → List FileMeta → List FileInfo
infos_of n arr = map (λ m. m.fi) (take n arr)

pub length-infos_of : (n : ℕ) (arr : List FileMeta) → n ≤ length arr → length (infos_of n arr) ≡ n
length-infos_of zero arr h = refl
length-infos_of (suc n) [] h = absurd (omega arith)
length-infos_of (suc n) (m ∷ arr) h = ap suc (length-infos_of n arr (omega arith))

-- Filling the slot behind the first `n` adds its info at the end.
pub infos_of-set :
    (n : ℕ) (arr : List FileMeta) (m : FileMeta)
    → n < length arr
    → infos_of (suc n) (set arr n m) ≡ infos_of n arr ++ (m.fi ∷ [])
infos_of-set n [] m h = absurd (omega arith)
infos_of-set zero (x ∷ arr) m h = refl
infos_of-set (suc n) (x ∷ arr) m h = ap (λ fs. x.fi ∷ fs) (infos_of-set n arr m (omega arith))

-- The search loop stops at the first file of the name, and otherwise at its bound.
find_index-position :
    (name : List ℕ) (arr : List FileMeta) (n i : ℕ)
    → n ≤ length arr
    → find_index name arr n i
      ≡ elim (position name (infos_of n arr)) [ none ↦ i + n | some k ↦ i + k ]
unfolding find_index position
find_index-position name arr zero i h = omega arith
find_index-position name [] (suc n) i h = absurd (omega arith)
find_index-position name (m ∷ arr) (suc n) i h =
    ground (arith, find_index-position name arr n (i + 1))

-- On a well-formed list `get_file_index_from_list` does to the array what `Catalog.index` does to
-- the list of infos: it returns the index of the first file of that name, or adds the file where it
-- may and there is room, or fails, and the infos afterwards are those that `Catalog.index` leaves.
pub get_file_index-refines :
    (info : FileInfo) (b : Bool) (l : FileList)
    → IsValid l
    → let (r, l') = get_file_index_from_list info b l in (r, infos l') ≡ index info b (infos l)
unfolding get_file_index_from_list index
get_file_index-refines info b l v = elim (Option-cases (position info.filename (infos l))) [
  | inl new ↦
      rw (new, index)
        (ground (
          arith,
          new,
          find_index-position info.filename l.filearr l.cnt 0,
          length-infos_of l.cnt l.filearr,
          infos_of-set l.cnt l.filearr (new_meta (stamp_at l.filearr l.cnt) info),
        ))
  | inr (k, old) ↦
      rw (old, index)
        (ground (
          arith,
          old,
          find_index-position info.filename l.filearr l.cnt 0,
          position-lt info.filename (infos l) k old,
          length-infos_of l.cnt l.filearr,
        ))
]

-- A call keeps the list well formed.
pub get_file_index-IsValid :
    (info : FileInfo) (b : Bool) (l : FileList)
    → IsValid l
    → IsValid (get_file_index_from_list info b l).1
unfolding get_file_index_from_list
get_file_index-IsValid info b l v =
    ground (arith, length-set l.filearr l.cnt (new_meta (stamp_at l.filearr l.cnt) info))

-- A name in the list: its index, and nothing changes.
pub get_file_index-known :
    (info : FileInfo) (b : Bool) (l : FileList) (k : ℕ)
    → IsValid l
    → position info.filename (infos l) ≡ some k
    → get_file_index_from_list info b l ≡ (some k, l)
unfolding get_file_index_from_list
get_file_index-known info b l k v e = ground (
  arith,
  find_index-position info.filename l.filearr l.cnt 0,
  position-lt info.filename (infos l) k e,
  length-infos_of l.cnt l.filearr,
)

-- A name that is not in the list, asked for without leave to add it.
pub get_file_index-unknown :
    (info : FileInfo) (l : FileList)
    → IsValid l
    → position info.filename (infos l) ≡ none
    → get_file_index_from_list info false l ≡ (none, l)
unfolding get_file_index_from_list
get_file_index-unknown info l v e =
    ground (arith, find_index-position info.filename l.filearr l.cnt 0)

pub index-lt-cnt :
    (name : List ℕ) (l : FileList) (k : ℕ)
    → IsValid l
    → position name (infos l) ≡ some k
    → k < l.cnt
index-lt-cnt name l k v e = omega (
  arith,
  position-lt name (infos l) k e,
  length-infos_of l.cnt l.filearr (omega (arith, v.slots, v.within)),
)

-- A change of a slot that leaves its info leaves the infos.
pub infos_of-set_fi :
    (n i : ℕ) (arr : List FileMeta) (m m' : FileMeta)
    → get_elem? arr i ≡ some m
    → m'.fi ≡ m.fi
    → infos_of n (set arr i m') ≡ infos_of n arr
infos_of-set_fi zero i arr m m' e f = refl
infos_of-set_fi (suc n) i [] m m' e f = refl
infos_of-set_fi (suc n) zero (x ∷ arr) m m' e f = ground arith
infos_of-set_fi (suc n) (suc i) (x ∷ arr) m m' e f =
    ap (λ fs. x.fi ∷ fs) (infos_of-set_fi n i arr m m' e f)

-- A new name, asked for with leave to add it: its slot is filled where there is room.
pub get_file_index-added :
    (info : FileInfo) (l : FileList)
    → IsValid l
    → position info.filename (infos l) ≡ none
    → suc l.cnt < max_file
    → let slot = new_meta (stamp_at l.filearr l.cnt) info in
      get_file_index_from_list info true l ≡ (
        some l.cnt,
        record {
          filearr = set l.filearr l.cnt slot;
          cnt = l.cnt + 1;
          file = pwrites l.file (add_writes l.cnt slot);
        },
      )
unfolding get_file_index_from_list
get_file_index-added info l v e room =
    ground (arith, find_index-position info.filename l.filearr l.cnt 0)

pub get_file_index-full :
    (info : FileInfo) (l : FileList)
    → IsValid l
    → position info.filename (infos l) ≡ none
    → suc l.cnt ≡ max_file
    → get_file_index_from_list info true l ≡ (none, l)
unfolding get_file_index_from_list
get_file_index-full info l v e full =
    ground (arith, find_index-position info.filename l.filearr l.cnt 0)
