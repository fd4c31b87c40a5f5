-- ===== src/Worker/Transfers/Order.antt =====
-- The transfers of a message in whatever order they are finished.
use mathlib.Core.List.{Permᴰ}
use file_server.Base.{ℕ, ◌+◌, ◌-◌, ◌≡◌, refl, ◌∙◌, Bool, List, [], ◌∷◌, arith}
use file_server.Base.Reorder.{any}
use file_server.Contents.{within}
use file_server.Worker.{Aio}
use file_server.Worker.Transfers.Stripes.{Tiles}

-- How many bytes they move.
abbrev pub total : List Aio → ℕ
total [] = 0
total (a ∷ more) = a.len + total more

-- One of them moves the byte at `q`.
abbrev pub covers : List Aio → ℕ → Bool
covers ts q = any (λ a. within a.offset a.len q) ts

pub Tiles-total : (offset remain : ℕ) (ts : List Aio) → Tiles offset remain ts → total ts ≡ remain
Tiles-total offset remain [] h = omega arith
Tiles-total offset remain (a ∷ more) (_, _, _, fits, _, _, tiles) =
    omega (arith, Tiles-total (offset + a.len) (remain - a.len) more tiles)

pub Tiles-covers :
    (offset remain : ℕ) (ts : List Aio) (q : ℕ)
    → Tiles offset remain ts
    → covers ts q ≡ within offset remain q
Tiles-covers offset remain [] q h = ground arith
Tiles-covers offset remain (a ∷ more) q (at, _, _, fits, _, _, tiles) =
    ground (arith, Tiles-covers (offset + a.len) (remain - a.len) more q tiles)

pub Perm-total : {xs ys : List Aio} → Permᴰ xs ys → total xs ≡ total ys
Perm-total Permᴰ.nil = refl
Perm-total (Permᴰ.cons e p) = rw (e, Perm-total p) refl
Perm-total (Permᴰ.swap {a} {b} {a' = a'} {b' = b'} e₁ e₂) = rw (e₁, e₂) (omega arith)
Perm-total (Permᴰ.trans p q) = Perm-total p ∙ Perm-total q
