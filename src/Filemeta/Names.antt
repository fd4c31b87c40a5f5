-- ===== src/Filemeta/Names.antt =====
-- `strcmp` on the two arrays of `file_info_t`, as the equality of the texts that they hold.
use file_server.Base.{ℕ, ◌≡◌, refl, sym, ◌∙◌, ◌↔◌, true, List, [], ◌∷◌, arith, Bool-cases, inl, inr}
use file_server.Filemeta.{str_eq, c_str}

str_eq_sound : (a b : List ℕ) → str_eq a b ≡ true → c_str a ≡ c_str b
unfolding str_eq
str_eq_sound [] [] h = refl
str_eq_sound [] (y ∷ ys) h = ground arith
str_eq_sound (x ∷ xs) [] h = ground arith
str_eq_sound (x ∷ xs) (y ∷ ys) h = ground (arith, str_eq_sound xs ys)

str_eq_complete : (a b : List ℕ) → c_str a ≡ c_str b → str_eq a b ≡ true
unfolding str_eq
str_eq_complete [] [] h = refl
str_eq_complete [] (y ∷ ys) h = ground arith
str_eq_complete (x ∷ xs) [] h = ground arith
str_eq_complete (x ∷ xs) (y ∷ ys) h = ground (arith, str_eq_complete xs ys)

-- Two arrays compare equal exactly when the texts up to their first zero bytes are equal, so what
-- stands behind the terminator plays no part.
pub str_eq_iff : (a b : List ℕ) → (str_eq a b ≡ true) ↔ (c_str a ≡ c_str b)
str_eq_iff a b = (str_eq_sound a b, str_eq_complete a b)

pub str_eq_self : (a : List ℕ) → str_eq a a ≡ true
str_eq_self a = str_eq_complete a a refl

-- Texts that are equal compare alike with any other.
pub str_eq_congr : (a b c : List ℕ) → c_str a ≡ c_str b → str_eq c a ≡ str_eq c b
str_eq_congr a b c e = elim (Bool-cases (str_eq c a)) [
  | inl t ↦ t ∙ sym (str_eq_complete c b (str_eq_sound c a t ∙ e))
  | inr f ↦ elim (Bool-cases (str_eq c b)) [
    | inl t ↦ str_eq_complete c a (str_eq_sound c b t ∙ sym e) ∙ sym t
    | inr g ↦ f ∙ sym g
  ]
]

pub str_eq_comm : (a b : List ℕ) → str_eq a b ≡ str_eq b a
str_eq_comm a b = elim (Bool-cases (str_eq a b)) [
  | inl t ↦ t ∙ sym (str_eq_complete b a (sym (str_eq_sound a b t)))
  | inr f ↦ elim (Bool-cases (str_eq b a)) [
    | inl t ↦ str_eq_complete a b (sym (str_eq_sound b a t)) ∙ sym t
    | inr g ↦ f ∙ sym g
  ]
]
