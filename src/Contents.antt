-- ===== src/Contents.antt =====
-- The bytes of a file or a buffer by their position, and transfers of parts of them.
use file_server.Base.{
  ℕ, zero, suc, ◌+◌, ◌-◌, ◌≤◌, ◌<◌, ◌≡◌, refl, ap, ap₂, ◌∙◌, inl, inr, true, false, Bool, List, [],
  ◌∷◌, arith, ◌==◌, ltb, leb, ◌&&◌, Bool-cases, if◌then◌else◌, length, take, drop, length-take,
  length-drop,
}

-- The `n` bytes from `off` on.
abbrev pub slice : (ℕ → ℕ) → ℕ → ℕ → List ℕ
slice f off zero = []
slice f off (suc n) = f off ∷ slice f (suc off) n

-- The bytes `xs` written from `off` on.
abbrev pub store : ℕ → List ℕ → (ℕ → ℕ) → ℕ → ℕ
store off [] f q = f q
store off (x ∷ xs) f q = if q == off then x else store (suc off) xs f q

-- The byte at a position of a list, and 0 outside of it.
abbrev pub byte_at : List ℕ → ℕ → ℕ
byte_at [] q = 0
byte_at (x ∷ xs) zero = x
byte_at (x ∷ xs) (suc q) = byte_at xs q

-- Position `q` is one of the `n` from `off` on.
abbrev pub within : ℕ → ℕ → ℕ → Bool
within off n q = leb off q && ltb q (off + n)

pub length-slice : (f : ℕ → ℕ) (off n : ℕ) → length (slice f off n) ≡ n
length-slice f off zero = refl
length-slice f off (suc n) = ap suc (length-slice f (suc off) n)

pub slice_ext :
    (f g : ℕ → ℕ) (off off' n : ℕ)
    → ((q : ℕ) → q < n → f (off + q) ≡ g (off' + q))
    → slice f off n ≡ slice g off' n
slice_ext f g off off' zero h = refl
slice_ext f g off off' (suc n) h =
    let first : f off ≡ g off' = ap f (omega arith) ∙ h 0 (omega arith) ∙ ap g (omega arith) in
    let more : slice f (suc off) n ≡ slice g (suc off') n =
      slice_ext f g (suc off) (suc off') n
        (λ q lt. ap f (omega arith) ∙ h (suc q) (omega arith) ∙ ap g (omega arith)) in
    rw (first, more) refl

pub take-slice : (f : ℕ → ℕ) (off n m : ℕ) → n ≤ m → take n (slice f off m) ≡ slice f off n
take-slice f off zero m h = refl
take-slice f off (suc n) zero h = absurd (omega arith)
take-slice f off (suc n) (suc m) h =
    ap (λ xs. f off ∷ xs) (take-slice f (suc off) n m (omega arith))

pub drop-slice :
    (f : ℕ → ℕ) (off n m : ℕ) → n ≤ m → drop n (slice f off m) ≡ slice f (off + n) (m - n)
drop-slice f off zero m h = ap₂ (λ o n. slice f o n) (omega arith) (omega arith)
drop-slice f off (suc n) zero h = absurd (omega arith)
drop-slice f off (suc n) (suc m) h =
    drop-slice f (suc off) n m (omega arith) ∙ ap₂ (λ o k. slice f o k) (omega arith) (omega arith)

pub byte_at-slice : (f : ℕ → ℕ) (off n k : ℕ) → k < n → byte_at (slice f off n) k ≡ f (off + k)
byte_at-slice f off zero k h = absurd (omega arith)
byte_at-slice f off (suc n) zero h = ap f (omega arith)
byte_at-slice f off (suc n) (suc k) h =
    byte_at-slice f (suc off) n k (omega arith) ∙ ap f (omega arith)

pub byte_at-take : (n : ℕ) (xs : List ℕ) (k : ℕ) → k < n → byte_at (take n xs) k ≡ byte_at xs k
byte_at-take zero xs k h = absurd (omega arith)
byte_at-take (suc n) [] k h = refl
byte_at-take (suc n) (x ∷ xs) zero h = refl
byte_at-take (suc n) (x ∷ xs) (suc k) h = byte_at-take n xs k (omega arith)

pub byte_at-drop : (n : ℕ) (xs : List ℕ) (k : ℕ) → byte_at (drop n xs) k ≡ byte_at xs (n + k)
byte_at-drop zero xs k = ap (byte_at xs) (omega arith)
byte_at-drop (suc n) [] k = refl
byte_at-drop (suc n) (x ∷ xs) k =
    byte_at-drop n xs k ∙ ap (byte_at (x ∷ xs)) {x = suc (n + k)} (omega arith)

pub store_at :
    (off : ℕ) (xs : List ℕ) (f : ℕ → ℕ) (q : ℕ)
    → store off xs f q ≡ (if within off (length xs) q then byte_at xs (q - off) else f q)
store_at off [] f q = let outside : within off 0 q ≡ false = ground arith in rw outside refl
store_at off (x ∷ xs) f q = elim (Bool-cases (q == off)) [
  | inl here ↦
      let inside : within off (suc (length xs)) q ≡ true = ground arith in
      let front : q - off ≡ 0 = ground arith in rw (here, inside, front) refl
  | inr other ↦ elim (Bool-cases (within (suc off) (length xs) q)) [
    | inl later ↦
        let inside : within off (suc (length xs)) q ≡ true = ground arith in
        let behind : q - off ≡ suc (q - suc off) = ground arith in
        rw (other, store_at (suc off) xs f q, later, inside, behind) refl
    | inr outside ↦
        let outside' : within off (suc (length xs)) q ≡ false = ground arith in
        rw (other, store_at (suc off) xs f q, outside, outside') refl
  ]
]

-- `dst` after a copy of the `n` bytes of `src` from `at` on to `off`.
abbrev pub copied : (ℕ → ℕ) → ℕ → ℕ → ℕ → (ℕ → ℕ) → ℕ → ℕ
copied src at off n dst q = if within off n q then src (at + (q - off)) else dst q

-- A copy of the first `k` bytes, then of the others.
pub copied_split :
    (src : ℕ → ℕ) (at off k n : ℕ) (dst mid : ℕ → ℕ) (q : ℕ)
    → k ≤ n
    → mid q ≡ copied src at off k dst q
    → copied src (at + k) (off + k) (n - k) mid q ≡ copied src at off n dst q
copied_split src at off k n dst mid q le m = elim (Bool-cases (within (off + k) (n - k) q)) [
  | inl late ↦
      let inside : within off n q ≡ true = ground arith in rw (late, inside) (ap src (ground arith))
  | inr not_late ↦ elim (Bool-cases (within off k q)) [
    | inl early ↦
        let inside : within off n q ≡ true = ground arith in rw (not_late, m, early, inside) refl
    | inr outside ↦
        let outside' : within off n q ≡ false = ground arith in
        rw (not_late, m, outside, outside') refl
  ]
]

-- The bytes at `at` of a list, written to `off`.
pub store-copied :
    (buf : List ℕ) (at off n : ℕ) (file : ℕ → ℕ) (q : ℕ)
    → at + n ≤ length buf
    → store off (take n (drop at buf)) file q ≡ copied (byte_at buf) at off n file q
store-copied buf at off n file q fits =
    let len : length (take n (drop at buf)) ≡ n =
      omega (arith, length-take n (drop at buf), length-drop at buf) in
    store_at off (take n (drop at buf)) file q
    ∙ rw len (elim (Bool-cases (within off n q)) [
      | inr outside ↦ rw outside refl
      | inl inside ↦
          rw inside
            (byte_at-take n (drop at buf) (q - off) (ground arith) ∙ byte_at-drop at buf (q - off))
    ])

-- The bytes at `src` of a file, written to `at`.
pub slice-copied :
    (file : ℕ → ℕ) (src at n : ℕ) (buf : ℕ → ℕ) (q : ℕ)
    → store at (slice file src n) buf q ≡ copied file src at n buf q
slice-copied file src at n buf q =
    store_at at (slice file src n) buf q
    ∙ rw (length-slice file src n) (elim (Bool-cases (within at n q)) [
      | inr outside ↦ rw outside refl
      | inl inside ↦ rw inside (byte_at-slice file src n (q - at) (ground arith))
    ])
