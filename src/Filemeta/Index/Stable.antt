-- ===== src/Filemeta/Index/Stable.antt =====
-- `get_file_index_from_list` for its clients: the names in the list, and the index of a name.
use file_server.Base.{
  ℕ, ◌≡◌, ap, sym, ◌∙◌, Bool, false, some, List, inl, inr, Option-cases, arith, get_elem?,
}
use file_server.Filemeta.{FileInfo, FileList, IsValid, infos, c_str}
use file_server.Filemeta.Index.{get_file_index_from_list}
use file_server.Filemeta.Index.Catalog.{
  index, position, Distinct, index-Distinct, index-index, index-get_elem?,
}
use file_server.Filemeta.Index.Refine.{
  get_file_index-refines, get_file_index-IsValid, get_file_index-known,
}

-- A call on a well-formed list in which no name stands twice leaves a well-formed list in which no
-- name stands twice, and each file stays at its place.
pub get_file_index-keeps :
    (info f : FileInfo) (b : Bool) (l : FileList) (i : ℕ)
    → IsValid l
    → Distinct (infos l)
    → get_elem? (infos l) i ≡ some f
    → let l' = (get_file_index_from_list info b l).1 in
      IsValid l' × Distinct (infos l') × (get_elem? (infos l') i ≡ some f)
get_file_index-keeps info f b l i v d e =
    let same = ap (λ r. r.1) (get_file_index-refines info b l v) in
    (
      get_file_index-IsValid info b l v,
      rw same (index-Distinct info b (infos l) d),
      rw same (index-get_elem? info b (infos l) i f e),
    )

position-of_index :
    (info : FileInfo) (fs : List FileInfo) (i : ℕ)
    → (index info false fs).0 ≡ some i
    → position info.filename fs ≡ some i
unfolding index
position-of_index info fs i e = elim (Option-cases (position info.filename fs)) [
  | inl new ↦ cc (new, e)
  | inr (k, old) ↦ ground arith
]

-- Whatever index a call on a well-formed list returned for a name, the next call for a name with
-- the same text returns it too, with or without leave to add a file, and changes nothing.
pub get_file_index-again :
    (info info' : FileInfo) (b b' : Bool) (l : FileList) (i : ℕ)
    → IsValid l
    → (get_file_index_from_list info b l).0 ≡ some i
    → c_str info.filename ≡ c_str info'.filename
    → let l' = (get_file_index_from_list info b l).1 in
      get_file_index_from_list info' b' l' ≡ (some i, l')
get_file_index-again info info' b b' l i v given same =
    let r = get_file_index-refines info b l v in
    let at = index-index info info' b false (infos l) i (sym (ap (λ x. x.0) r) ∙ given) same in
    get_file_index-known info' b' (get_file_index_from_list info b l).1 i
      (get_file_index-IsValid info b l v)
      (position-of_index info' _ i
        (ap (λ fs. (index info' false fs).0) (ap (λ x. x.1) r) ∙ ap (λ x. x.0) at))
