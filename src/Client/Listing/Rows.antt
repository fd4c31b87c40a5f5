-- ===== src/Client/Listing/Rows.antt =====
-- The table of the files that the reply brings.
use mathlib.Core.List.{append_assoc}
use file_server.Base.{
  ℕ, zero, suc, ◌+◌, ◌≡◌, refl, ap, ap₂, ◌∙◌, some, List, [], ◌∷◌, ◌++◌, arith, ◌==◌, false, length,
  ltb, take, if◌then◌else◌, drop, get_elem?, All, length-append,
}
use file_server.Filemeta.{FileInfo, c_str}
use file_server.Msg.{IsWord, sizeof_file_info}
use file_server.Msg.Serialize.{word_bytes}
use file_server.Msg.Bytes.{read_word, read_word-bytes, drop-append}
use file_server.Client.Listing.{Row, text_at, cut, row, row_before, rows}

-- The memory of a `file_info_t`, which goes out as it is.
abbrev pub info_bytes : FileInfo → List ℕ
info_bytes f = word_bytes f.filesize ++ (f.filename ++ f.fileowner)

abbrev pub infos_bytes : List FileInfo → List ℕ
infos_bytes [] = []
infos_bytes (f ∷ fs) = info_bytes f ++ infos_bytes fs

-- Its arrays have their sizes, and each has a 0.
pub record IsNamed (f : FileInfo) : Type 0 where
  pub filesize : IsWord f.filesize
  pub filename : length f.filename ≡ 300
  pub fileowner : length f.fileowner ≡ 100
  pub name_end : (k : ℕ) × (get_elem? f.filename k ≡ some 0)
  pub owner_end : (k : ℕ) × (get_elem? f.fileowner k ≡ some 0)

-- What the table shows of a text: all of it where it has at most 20 characters, and otherwise its
-- first 17 and three dots.
abbrev pub shown : List ℕ → List ℕ
shown t = if ltb 20 (length t) then take 17 t ++ (46 ∷ 46 ∷ 46 ∷ []) else t

-- The rows for some files, numbered from `fileidx` on.
abbrev pub listed_from : ℕ → List FileInfo → List Row
listed_from fileidx [] = []
listed_from fileidx (f ∷ fs) =
    record {
      number = fileidx;
      filename = shown (c_str f.filename);
      filesize = f.filesize;
      fileowner = shown (c_str f.fileowner);
    }
    ∷ listed_from (fileidx + 1) fs

text_at-c_str :
    (xs ys : List ℕ) (k : ℕ) → get_elem? xs k ≡ some 0 → text_at (xs ++ ys) ≡ some (c_str xs)
text_at-c_str [] ys k e = cc
text_at-c_str (zero ∷ xs) ys k e = refl
text_at-c_str (suc c ∷ xs) ys zero e = cc
text_at-c_str (suc c ∷ xs) ys (suc k) e =
    let no_end : (suc c == 0) ≡ false = ground arith in rw (text_at-c_str xs ys k e, no_end) refl

pub length-info_bytes : (f : FileInfo) → IsNamed f → length (info_bytes f) ≡ 404
length-info_bytes f v = omega (arith, length-append f.filename f.fileowner, v.filename, v.fileowner)

row_of_texts :
    (fileidx filesize : ℕ) (b name owner : List ℕ)
    → text_at b ≡ some name
    → text_at (drop 300 b) ≡ some owner
    → row fileidx (some (filesize, b))
      ≡ some (record {
        number = fileidx;
        filename = cut name;
        filesize = filesize;
        fileowner = cut owner;
      })
row_of_texts fileidx filesize b name owner n o = rw (n, o, row) refl

pub rows-listed_from :
    (fs : List FileInfo) (fileidx : ℕ)
    → All IsNamed fs
    → rows (length fs) fileidx (infos_bytes fs) ≡ some (listed_from fileidx fs)
unfolding rows
rows-listed_from [] fileidx v = refl
rows-listed_from (f ∷ fs) fileidx v =
    let later = f.fileowner ++ infos_bytes fs in
    let front : infos_bytes (f ∷ fs) ≡ word_bytes f.filesize ++ (f.filename ++ later) =
      append_assoc (word_bytes f.filesize) (f.filename ++ f.fileowner) (infos_bytes fs)
      ∙ ap (λ xs. word_bytes f.filesize ++ xs)
          (append_assoc f.filename f.fileowner (infos_bytes fs)) in
    let size = ap read_word front ∙ read_word-bytes f.filesize (f.filename ++ later) v.0.filesize in
    let rest : drop sizeof_file_info (infos_bytes (f ∷ fs)) ≡ infos_bytes fs =
      drop-append 404 (info_bytes f) (infos_bytes fs) (length-info_bytes f v.0) in
    ap₂ (λ r rs. row_before (row fileidx r) rs) size
      (ap (rows (length fs) (fileidx + 1)) rest ∙ rows-listed_from fs (fileidx + 1) v.1)
    ∙ ap (λ r. row_before r (some (listed_from (fileidx + 1) fs)))
        (row_of_texts fileidx f.filesize (f.filename ++ later) (c_str f.filename)
          (c_str f.fileowner) (text_at-c_str f.filename later v.0.name_end.0 v.0.name_end.1)
          (ap text_at (drop-append 300 f.filename later v.0.filename)
            ∙ text_at-c_str f.fileowner (infos_bytes fs) v.0.owner_end.0 v.0.owner_end.1))
