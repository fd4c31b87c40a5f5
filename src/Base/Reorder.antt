-- ===== src/Base/Reorder.antt =====
-- Lists up to their order.
use mathlib.Core.Path.{◌≡◌, refl, subst, ◌∙◌}
use mathlib.Core.Bool.{Bool, true, false, ◌||◌}
use mathlib.Core.List.{List, [], ◌∷◌, Permᴰ}
use file_server.Base.Tests.{if◌then◌else◌}
use file_server.Base.Lists.{All}
use Prim.Native.Nat.{ℕ}

-- What is written over what was written before.
pub if_or :
    (x y : Bool) (c b b' : ℕ)
    → b' ≡ (if x then c else b)
    → (if y then c else b') ≡ (if x || y then c else b)
if_or true true c b b' e = refl
if_or true false c b b' e = e
if_or false true c b b' e = refl
if_or false false c b b' e = e

either : (x y z : Bool) → (x || (y || z)) ≡ (y || (x || z))
either true true z = refl
either true false z = refl
either false true z = refl
either false false z = refl

module _ {ℓ} {A : Type ℓ} where
  abbrev pub any : (A → Bool) → List A → Bool
  any p [] = false
  any p (x ∷ xs) = p x || any p xs

  pub Perm-any : (p : A → Bool) {xs ys : List A} → Permᴰ xs ys → any p xs ≡ any p ys
  Perm-any p Permᴰ.nil = refl
  Perm-any p (Permᴰ.cons e r) = rw (e, Perm-any p r) refl
  Perm-any p (Permᴰ.swap {a} {b} {a' = a'} {b' = b'} {l = l} e₁ e₂) =
      rw (e₁, e₂) (either (p b') (p a') (any p l))
  Perm-any p (Permᴰ.trans r t) = Perm-any p r ∙ Perm-any p t

  pub Perm-All {κ} : (P : A → Type κ) {xs ys : List A} → Permᴰ xs ys → All P xs → All P ys
  Perm-All P Permᴰ.nil h = h
  Perm-All P (Permᴰ.cons e p) h = (subst P e h.0, Perm-All P p h.1)
  Perm-All P (Permᴰ.swap e₁ e₂) h = (subst P e₂ h.1.0, (subst P e₁ h.0, h.1.1))
  Perm-All P (Permᴰ.trans p q) h = Perm-All P q (Perm-All P p h)
