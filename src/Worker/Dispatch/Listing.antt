-- ===== src/Worker/Dispatch/Listing.antt =====
-- The data phase of LIST, for the number of files that the client asks for.
use file_server.Base.{
  ℕ, zero, suc, ◌+◌, ◌*◌, ◌^◌, ◌≤◌, ◌<◌, ◌≡◌, refl, ap, sym, ◌⊎◌, inl, inr, false, none, some, List,
  [], ◌∷◌, ◌∙◌, arith, drop, ltb, Bool-cases, get_elem?, get_elem?-of_lt,
}
use file_server.Base.Word.{is_negative}
use file_server.Filemeta.{FileMeta, FileList, IsValid}
use file_server.Filemeta.Index.{get_filemeta_by_idx}
use file_server.Filemeta.Index.Refine.{infos_of}
use file_server.Msg.{Datamsg, transfer, err_none, op_list_reply, sizeof_file_info}
use file_server.Worker.{Server, reply, crash, data_reply}
use file_server.Worker.Commands.Locking.{get_filemeta-known}
use file_server.Worker.Dispatch.{copy_infos, list_data}

drop-get_elem? :
    (arr : List FileMeta) (i : ℕ) (m : FileMeta)
    → get_elem? arr i ≡ some m
    → drop i arr ≡ m ∷ drop (suc i) arr
drop-get_elem? [] i m e = cc
drop-get_elem? (x ∷ arr) zero m e = ground arith
drop-get_elem? (x ∷ arr) (suc i) m e = drop-get_elem? arr i m e

get_filemeta-past :
    (i : ℕ) (l : FileList) → l.cnt ≤ i → i < 2 ^ 31 → get_filemeta_by_idx i l ≡ some none
unfolding get_filemeta_by_idx
get_filemeta-past i l h small = ground arith

copy_infos-some :
    (l : FileList) (n i : ℕ)
    → i + n ≤ l.cnt
    → IsValid l
    → copy_infos l n i ≡ some (infos_of n (drop i l.filearr))
unfolding copy_infos
copy_infos-some l zero i h v = refl
copy_infos-some l (suc n) i h v =
    let (m, at) = get_elem?-of_lt l.filearr i (omega (arith, v.slots, v.within)) in
    let after : i + 1 ≡ suc i = omega arith in
    ground (
      arith,
      get_filemeta-known i l m (omega arith) (omega (arith, v.within)) at,
      copy_infos-some l n (i + 1) (omega arith) v,
      drop-get_elem? l.filearr i m at ∙ ap (λ k. m ∷ drop k l.filearr) (sym after),
    )

copy_infos-none :
    (l : FileList) (n i : ℕ) → i ≤ l.cnt → l.cnt < i + n → IsValid l → copy_infos l n i ≡ none
unfolding copy_infos
copy_infos-none l zero i low h v = absurd (omega arith)
copy_infos-none l (suc n) i low h v = elim (Bool-cases (ltb i l.cnt)) [
  | inr past ↦ ground (arith, get_filemeta-past i l (ground arith) (omega (arith, v.within)))
  | inl inside ↦
      let (m, at) = get_elem?-of_lt l.filearr i (ground (arith, v.slots, v.within)) in
      ground (
        arith,
        get_filemeta-known i l m (ground arith) (omega (arith, v.within)) at,
        copy_infos-none l n (i + 1) (ground arith) (omega arith) v,
      )
]

abbrev pub list_reply : ℕ → Datamsg
list_reply n = record (data_reply op_list_reply err_none 0) {
  hd = record ((data_reply op_list_reply err_none 0).hd) { buflen = n * sizeof_file_info };
}

pub list_data-some :
    (d : Datamsg) (s : Server)
    → IsValid s.list
    → d.sfilefd ≤ s.list.cnt
    → list_data d s
      ≡ (reply (transfer (list_reply d.sfilefd)), some (infos_of d.sfilefd s.list.filearr))
unfolding list_data
list_data-some d s v few =
    let counted : is_negative d.sfilefd ≡ false = ground (arith, v.within) in
    ground (arith, counted, v.within, copy_infos-some s.list d.sfilefd 0 (omega arith) v)

list_data-none :
    (d : Datamsg) (s : Server)
    → IsValid s.list
    → d.sfilefd < 2 ^ 31
    → s.list.cnt < d.sfilefd
    → (list_data d s).0 ≡ crash
unfolding list_data
list_data-none d s v small more =
    let counted : is_negative d.sfilefd ≡ false = ground arith in
    ground (arith, counted, copy_infos-none s.list d.sfilefd 0 (omega arith) (omega arith) v)

-- On a well-formed list, the reply to the data phase of LIST brings the infos of the first files,
-- as many as the client asks for and at most all, and its length names their bytes. A count above
-- the number of files, which nothing guards against, reads through the NULL that
-- `get_filemeta_by_idx` returns. The count is taken to be non-negative as an `int`.
pub list_data-infos :
    (d : Datamsg) (s : Server)
    → IsValid s.list
    → d.sfilefd < 2 ^ 31
    → let (o, stream) = list_data d s in
      ((d.sfilefd ≤ s.list.cnt)
        × (stream ≡ some (infos_of d.sfilefd s.list.filearr))
        × ((r : Datamsg) × (o ≡ reply (transfer r))
            × (r.hd.err ≡ err_none)
            × (r.hd.buflen ≡ d.sfilefd * sizeof_file_info)))
      ⊎ ((s.list.cnt < d.sfilefd) × (o ≡ crash))
list_data-infos d s v small = elim (Bool-cases (ltb s.list.cnt d.sfilefd)) [
  | inl more ↦ inr (ground arith, list_data-none d s v small (ground arith))
  | inr few ↦
      let at_most : d.sfilefd ≤ s.list.cnt = ground arith in
      rw (list_data-some d s v at_most) (inl (at_most, refl, (_, refl, refl, refl)))
]
