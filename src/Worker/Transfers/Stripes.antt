-- ===== src/Worker/Transfers/Stripes.antt =====
-- The loop over the stripes of a transfer, and how many units the lock is taken for.
use file_server.Base.{
  ℕ, zero, suc, ◌+◌, ◌-◌, ◌*◌, ◌/◌, ◌^◌, ◌≤◌, ◌<◌, ◌≡◌, refl, ◌⊎◌, inl, inr, Bool, false, List, [],
  ◌∷◌, arith, length, All, Bool-cases,
}
use file_server.Base.Word.{is_positive, add_word, sub_word}
use file_server.Msg.{Datamsg, file_stripe}
use file_server.Worker.{Aio, lock_units}
use file_server.Worker.Transfers.{
  LoopEnd, finished, rejected, stripe, stripe_len, stripe_loop, rounds,
}

-- The transfers cover `remain` bytes from `offset` on, without gap or overlap, each with at least one
-- byte and at most a stripe, and each answer names its range.
abbrev pub Tiles : ℕ → ℕ → List Aio → Type 0
Tiles offset remain [] = remain ≡ 0
Tiles offset remain (a ∷ more) =
    (a.offset ≡ offset)
    × (0 < a.len)
    × (a.len ≤ file_stripe)
    × (a.len ≤ remain)
    × (a.answer.offset ≡ offset)
    × (a.answer.hd.buflen ≡ a.len)
    × Tiles (offset + a.len) (remain - a.len) more

-- How many stripes `remain` bytes make.
abbrev pub stripes : ℕ → ℕ
stripes remain = (remain + (file_stripe - 1)) / file_stripe

-- For every size up to 2 GB less a stripe, the lock is taken for one unit for each stripe, the last
-- one included where it is not whole.
pub lock_units-stripes :
    (remain : ℕ) → remain + file_stripe ≤ 2 ^ 31 → lock_units remain ≡ stripes remain
lock_units-stripes remain h = ground arith

-- A transfer that reads for the message's file, with the reply that brings its range.
abbrev pub IsRead : ℕ → ℕ → ℕ → Aio → Type 0
IsRead op sfilefd fd a = a ≡ stripe op sfilefd fd a.offset a.len

module _ (op sfilefd fd : ℕ) (submits : ℕ → Bool) where
  abbrev pub loop : ℕ → ℕ → ℕ → ℕ → List Aio × LoopEnd
  loop = stripe_loop op sfilefd fd submits

  -- The two ends that the code has.
  abbrev pub Ends : ℕ → ℕ → List Aio × LoopEnd → Type 0
  Ends offset remain (taken, e) =
      ((e ≡ finished) × Tiles offset remain taken × (length taken ≡ stripes remain))
      ⊎ ((d : Datamsg) × (j : ℕ) × (e ≡ rejected d)
          × (submits j ≡ false)
          × (length taken < stripes remain))

  Ends-cons :
      (offset remain : ℕ) (more : List Aio × LoopEnd)
      → 0 < remain
      → remain < 2 ^ 31
      → Ends (offset + stripe_len remain) (remain - stripe_len remain) more
      → Ends offset remain (stripe op sfilefd fd offset (stripe_len remain) ∷ more.0, more.1)
  Ends-cons offset remain more p small (inl (e, tiles, len)) =
      inl (e, (refl, ground arith, ground arith, ground arith, refl, refl, tiles), ground arith)
  Ends-cons offset remain more p small (inr (d, j, e, no_room, len)) =
      inr (d, j, e, no_room, ground arith)

  loop-Ends :
      (n k offset remain : ℕ)
      → remain ≤ n * file_stripe
      → remain < 2 ^ 31
      → offset + remain < 2 ^ 32
      → Ends offset remain (loop (suc n) k offset remain)
  unfolding stripe_loop
  loop-Ends zero k offset remain fuel small fits =
      let none_left : is_positive remain ≡ false = ground arith in
      rw none_left (inl (refl, omega arith, omega arith))
  loop-Ends (suc n) k offset remain fuel small fits = elim (Bool-cases (is_positive remain)) [
    | inr none_left ↦ rw none_left (inl (refl, ground arith, ground arith))
    | inl some_left ↦ elim (Bool-cases (submits k)) [
      | inr no_room ↦ rw (some_left, no_room) (inr (_, k, refl, no_room, ground arith))
      | inl ok ↦
          let next : add_word offset (stripe_len remain) ≡ offset + stripe_len remain =
            ground arith in
          let less : sub_word remain (stripe_len remain) ≡ remain - stripe_len remain =
            ground arith in
          rw (some_left, ok, next, less)
            (Ends-cons offset remain _ (ground arith) small (
              loop-Ends n (k + 1) (offset + stripe_len remain) (remain - stripe_len remain)
                (ground arith) (ground arith) (ground arith)))
    ]
  ]

  loop-IsRead : (n k offset remain : ℕ) → All (IsRead op sfilefd fd) (loop n k offset remain).0
  unfolding stripe_loop
  loop-IsRead zero k offset remain = tt
  loop-IsRead (suc n) k offset remain = elim (Bool-cases (is_positive remain)) [
    | inr none_left ↦ rw none_left tt
    | inl some_left ↦ elim (Bool-cases (submits k)) [
      | inr no_room ↦ rw (some_left, no_room) tt
      | inl ok ↦ rw (some_left, ok) (refl, loop-IsRead n (k + 1) _ _)
    ]
  ]

  -- The loop over the stripes of `remain` bytes, below 2 GB and with an end that does not overflow,
  -- ends within its rounds in one of two ways: its transfers tile the range and are as many as the
  -- stripes, or `io_submit` refused one and fewer were taken. All of them read the file of the
  -- message.
  pub stripe_loop-Ends :
      (offset remain : ℕ)
      → remain < 2 ^ 31
      → offset + remain < 2 ^ 32
      → Ends offset remain (loop (rounds remain) 0 offset remain)
        × All (IsRead op sfilefd fd) (loop (rounds remain) 0 offset remain).0
  stripe_loop-Ends offset remain small fits =
      (loop-Ends _ 0 offset remain (omega arith) small fits, loop-IsRead _ 0 offset remain)
