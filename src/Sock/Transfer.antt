-- ===== src/Sock/Transfer.antt =====
-- The loops of `sock_send` and `sock_recv` over partial transfers.
use Prim.Native.Nat.{min}
use mathlib.Core.List.{append-nil}
use file_server.Base.{
  ℕ, zero, suc, ◌+◌, ◌-◌, ◌^◌, ◌≤◌, ◌<◌, ◌≡◌, refl, ◌∙◌, ap, false, List, [], ◌∷◌, ◌++◌, arith,
  ◌==◌, length, take, drop, length-take, length-drop, All,
}
use file_server.Sock.{Sock, Moved, move_loop, sock_recv, sock_send, to_move}

-- Each of the next calls moves something, and there are enough of them for `n` bytes.
pub record Enough (n : ℕ) (answers : List ℕ) : Type 0 where
  pub positive : All (λ c. 0 < c) answers
  pub many : n ≤ length answers

module _ {ℓ} {A : Type ℓ} where
  pub take-add : (k n : ℕ) (xs : List A) → k ≤ n → take k xs ++ take (n - k) (drop k xs) ≡ take n xs
  take-add zero n xs h = ap (λ m. take m xs) (omega arith)
  take-add (suc k) zero xs h = absurd (omega arith)
  take-add (suc k) (suc n) [] h = take-nil (suc n - suc k)
    where
      take-nil : (m : ℕ) → take {A = A} m [] ≡ []
      take-nil zero = refl
      take-nil (suc m) = refl
  take-add (suc k) (suc n) (x ∷ xs) h =
      ap (λ ys. x ∷ ys)
        (ap (λ m. take k xs ++ take m (drop k xs)) (omega arith) ∙ take-add k n xs (omega arith))

  pub drop-add : (k n : ℕ) (xs : List A) → k ≤ n → drop (n - k) (drop k xs) ≡ drop n xs
  drop-add zero n xs h = ap (λ m. drop m xs) (omega arith)
  drop-add (suc k) zero xs h = absurd (omega arith)
  drop-add (suc k) (suc n) [] h = drop-nil (suc n - suc k)
    where
      drop-nil : (m : ℕ) → drop {A = A} m [] ≡ []
      drop-nil zero = refl
      drop-nil (suc m) = refl
  drop-add (suc k) (suc n) (x ∷ xs) h =
      ap (λ m. drop m (drop k xs)) (omega arith) ∙ drop-add k n xs (omega arith)

  pub take_all : (n : ℕ) (xs : List A) → length xs ≤ n → take n xs ≡ xs
  take_all zero [] h = refl
  take_all zero (x ∷ xs) h = absurd (omega arith)
  take_all (suc n) [] h = refl
  take_all (suc n) (x ∷ xs) h = ap (λ ys. x ∷ ys) (take_all n xs (omega arith))

abbrev Moves : ℕ → ℕ → List ℕ → Moved → Type 0
Moves n spare bytes m = (m.moved ≡ take n bytes) × (m.rest ≡ drop n bytes) × Enough spare m.answers

-- The loop moves what it was asked for, and uses at most one call for each byte.
pub move_loop-Moves :
    (cs : List ℕ) (n spare : ℕ) (bytes : List ℕ)
    → n ≤ length bytes
    → Enough (n + spare) cs
    → Moves n spare bytes (move_loop cs n bytes)
unfolding move_loop
move_loop-Moves [] zero spare bytes h e =
    (refl, refl, record { positive = tt; many = omega (arith, e.many) })
move_loop-Moves [] (suc n) spare bytes h e = absurd (omega (arith, e.many))
move_loop-Moves (c ∷ cs) zero spare bytes h e =
    (refl, refl, record { positive = e.positive; many = omega (arith, e.many) })
move_loop-Moves (c ∷ cs) (suc n) spare bytes h e =
    let (moved, rest, left) =
      move_loop-Moves cs (suc n - len) spare (drop len bytes) (omega (arith, length-drop len bytes))
        (record { positive = e.positive.1; many = omega (arith, e.many, e.positive.0) }) in
    rw (asked, some_len)
      (
        ap (λ ys. take len bytes ++ ys) moved ∙ take-add len (suc n) bytes (omega arith),
        rest ∙ drop-add len (suc n) bytes (omega arith),
        left,
      )
  where
    len : ℕ
    len = min c (min (suc n) (length bytes))

    asked : (suc n == 0) ≡ false
    asked = ground arith

    some_len : (len == 0) ≡ false
    some_len = ground (arith, e.positive.0)

-- Where the bytes are there, fewer than 2 GB, and each of enough calls moves something, `sock_recv`
-- gets exactly the bytes that it asks for, in their order, and leaves the others and the calls that
-- it had no need of.
pub sock_recv-all :
    (n spare : ℕ) (s : Sock)
    → n < 2 ^ 31
    → n ≤ length s.incoming
    → Enough (n + spare) s.reads
    → let (got, s') = sock_recv n s in
      (got ≡ take n s.incoming)
      × (s'.incoming ≡ drop n s.incoming)
      × (s'.outgoing ≡ s.outgoing)
      × Enough spare s'.reads
unfolding sock_recv
sock_recv-all n spare s small h e =
    let int : to_move n ≡ n = ground arith in
    let (moved, rest, left) = move_loop-Moves s.reads n spare s.incoming h e in
    rw int (moved, rest, refl, left)

-- Where the buffer has the bytes, fewer than 2 GB, and each of enough calls moves something,
-- `sock_send` sends the first `n` bytes of the buffer in their order and returns `n`, and leaves
-- the calls that it had no need of.
pub sock_send-all :
    (buf : List ℕ) (n spare : ℕ) (s : Sock)
    → n < 2 ^ 31
    → n ≤ length buf
    → Enough (n + spare) s.writes
    → let (sent, s') = sock_send buf n s in
      (sent ≡ n)
      × (s'.outgoing ≡ s.outgoing ++ take n buf)
      × (s'.incoming ≡ s.incoming)
      × Enough spare s'.writes
unfolding sock_send
sock_send-all buf n spare s small h e =
    let int : to_move n ≡ n = ground arith in
    let (moved, rest, left) =
      move_loop-Moves s.writes n spare (take n buf) (omega (arith, length-take n buf)) e in
    rw int (
      rw moved (omega (arith, length-take n (take n buf), length-take n buf)),
      ap (λ b. s.outgoing ++ b) (moved ∙ take-take),
      refl,
      left,
    )
  where
    take-take : take n (take n buf) ≡ take n buf
    take-take = take_all n (take n buf) (omega (arith, length-take n buf))

-- A size that is negative as an `int` moves nothing.
pub sock_send-negative :
    (buf : List ℕ) (n : ℕ) (s : Sock)
    → 2 ^ 31 ≤ n
    → ((sock_send buf n s).0 ≡ 0) × ((sock_send buf n s).1.outgoing ≡ s.outgoing)
unfolding sock_send
sock_send-negative buf n s h =
    let neg : to_move n ≡ 0 = ground arith in rw neg (none_moved s.writes)
  where
    none_moved :
        (cs : List ℕ)
        → (length (move_loop cs 0 []).moved ≡ 0)
          × (s.outgoing ++ (move_loop cs 0 []).moved ≡ s.outgoing)
    none_moved [] = (refl, append-nil s.outgoing)
    none_moved (c ∷ cs) = (refl, append-nil s.outgoing)
