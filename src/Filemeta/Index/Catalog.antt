-- ===== src/Filemeta/Index/Catalog.antt =====
-- The list of files as its clients see it: the infos in the order in which they came, searched by
-- name, with room for one file fewer than the array has slots.
use file_server.Base.{
  ℕ, zero, suc, ◌+◌, ◌-◌, ◌<◌, ◌≡◌, refl, ◌⊎◌, inl, inr, Bool, true, false, Option, none, some,
  List, [], ◌∷◌, ◌++◌, arith, ◌==◌, if◌then◌else◌, length, get_elem?, Bool-cases, Option-cases,
}
use file_server.Filemeta.{FileInfo, max_file, str_eq, c_str}
use file_server.Filemeta.Names.{str_eq_self, str_eq_congr, str_eq_comm}

abbrev next : Option ℕ → Option ℕ
next none = none
next (some k) = some (suc k)

-- The index of the first file of that name.
unfoldable pub position : List ℕ → List FileInfo → Option ℕ
position name [] = none
position name (f ∷ fs) =
    let rest = next (position name fs) in if str_eq f.filename name then some 0 else rest

abbrev pub is_full : List FileInfo → Bool
is_full fs = length fs == max_file - 1

abbrev pub add : FileInfo → List FileInfo → Option ℕ × List FileInfo
add info fs = if is_full fs then (none, fs) else (some (length fs), fs ++ (info ∷ []))

-- The index of a file: found by its name, or given out for a new file.
unfoldable pub index : FileInfo → Bool → List FileInfo → Option ℕ × List FileInfo
index info add_if_nonexist fs = elim (position info.filename fs) [
  | none ↦ if add_if_nonexist then add info fs else (none, fs)
  | some i ↦ (some i, fs)
]

-- No later file has the name of an earlier one.
abbrev pub Distinct : List FileInfo → Type 0
Distinct [] = Unit
Distinct (f ∷ fs) = (position f.filename fs ≡ none) × Distinct fs

pub position-congr :
    (a b : List ℕ) (fs : List FileInfo) → c_str a ≡ c_str b → position a fs ≡ position b fs
unfolding position
position-congr a b [] e = refl
position-congr a b (f ∷ fs) e = rw (str_eq_congr a b f.filename e, position-congr a b fs e)

abbrev shift : ℕ → Option ℕ → Option ℕ
shift n none = none
shift n (some k) = some (n + k)

pub position-append :
    (name : List ℕ) (fs gs : List FileInfo)
    → position name (fs ++ gs)
      ≡ elim (position name fs) [ none ↦ shift (length fs) (position name gs) | some k ↦ some k ]
unfolding position
position-append name [] gs = ground arith
position-append name (f ∷ fs) gs = ground (arith, position-append name fs gs)

pub position-lt :
    (name : List ℕ) (fs : List FileInfo) (k : ℕ) → position name fs ≡ some k → k < length fs
unfolding position
position-lt name [] k e = cc
position-lt name (f ∷ fs) zero e = omega arith
position-lt name (f ∷ fs) (suc k) e = ground (arith, position-lt name fs k)

Distinct-append :
    (fs : List FileInfo) (g : FileInfo)
    → Distinct fs
    → position g.filename fs ≡ none
    → Distinct (fs ++ (g ∷ []))
unfolding position
Distinct-append [] g d new = (refl, tt)
Distinct-append (f ∷ fs) g d new = (
  ground (arith, d.0, position-append f.filename fs (g ∷ []), str_eq_comm g.filename f.filename),
  Distinct-append fs g d.1 (ground arith),
)

-- Looking a file up, or adding it, never lets a name stand twice.
pub index-Distinct :
    (info : FileInfo) (b : Bool) (fs : List FileInfo) → Distinct fs → Distinct (index info b fs).1
unfolding index
index-Distinct info b fs d = elim (Option-cases (position info.filename fs)) [
  | inl e ↦ rw (e, index) (added b (Bool-cases (is_full fs)) e)
  | inr (k, e) ↦ rw (e, index) d
]
  where
    added :
        (b : Bool)
        → (is_full fs ≡ true) ⊎ (is_full fs ≡ false)
        → position info.filename fs ≡ none
        → Distinct (if b then add info fs else (none, fs)).1
    added false _ e = d
    added true (inl full) e = rw full d
    added true (inr room) e = rw room (Distinct-append fs info d e)

-- The index that a name was given is found again, with or without leave to add, and nothing
-- changes by that.
pub index-index :
    (info info' : FileInfo) (b b' : Bool) (fs : List FileInfo) (i : ℕ)
    → (index info b fs).0 ≡ some i
    → c_str info.filename ≡ c_str info'.filename
    → index info' b' (index info b fs).1 ≡ (some i, (index info b fs).1)
unfolding index position
index-index info info' b b' fs i given same = ground (
  arith,
  position-congr info.filename info'.filename fs same,
  position-congr info.filename info'.filename (fs ++ (info ∷ [])) same,
  position-append info.filename fs (info ∷ []),
  str_eq_self info.filename,
)

-- What was in the list stays where it was.
pub index-get_elem? :
    (info : FileInfo) (b : Bool) (fs : List FileInfo) (i : ℕ) (f : FileInfo)
    → get_elem? fs i ≡ some f
    → get_elem? (index info b fs).1 i ≡ some f
unfolding index
index-get_elem? info b fs i f e = ground (arith, get_elem?-append_left fs (info ∷ []) i)
  where
    get_elem?-append_left :
        (xs ys : List FileInfo) (j : ℕ) → get_elem? xs j ≡ some f → get_elem? (xs ++ ys) j ≡ some f
    get_elem?-append_left [] ys j h = cc
    get_elem?-append_left (x ∷ xs) ys zero h = h
    get_elem?-append_left (x ∷ xs) ys (suc j) h = get_elem?-append_left xs ys j h
