-- ===== src/Client/Receive/Outgoing.antt =====
-- What the loops of `get_proc` and `read_proc` send.
use file_server.Base.{ℕ, zero, suc, ◌+◌, ◌≡◌, refl, ◌∙◌, ◌⊎◌, inl, inr, true, Bool-cases}
use file_server.Base.Word.{is_positive}
use file_server.Sock.{Sock}
use file_server.Msg.Exchange.{recv_msg}
use file_server.Msg.Exchange.Sides.{recv_msg-SameOut}
use file_server.Client.{Answer, Got, null, answer, fault, got_of}
use file_server.Client.Receive.{Ended, Stepped, over, again, receive_loop}

Got-cases : (g : Got) → (g ≡ null) ⊎ (g ≡ fault) ⊎ ((x : Answer) × (g ≡ answer x))
Got-cases null = inl refl
Got-cases fault = inr (inl refl)
Got-cases (answer x) = inr (inr (x, refl))

Stepped-cases :
    (t : Stepped)
    → ((e : Ended) × (b : ℕ → ℕ) × (t ≡ over e b)) ⊎ ((m : ℕ) × (b : ℕ → ℕ) × (t ≡ again m b))
Stepped-cases (over e b) = inl (e, b, refl)
Stepped-cases (again m b) = inr (m, b, refl)

-- The loop sends nothing.
pub receive_loop-outgoing :
    (round : ℕ → ℕ → Answer → (ℕ → ℕ) → Stepped) (fuel k remain : ℕ) (bytes : ℕ → ℕ) (s : Sock)
    → (receive_loop round fuel k remain bytes s).2.outgoing ≡ s.outgoing
unfolding receive_loop
receive_loop-outgoing round zero k remain bytes s = refl
receive_loop-outgoing round (suc n) k remain bytes s =
    let same = (recv_msg-SameOut true s).0 in
    elim (Bool-cases (is_positive remain)) [
      | inr none_left ↦ rw none_left refl
      | inl some_left ↦ elim (Got-cases (got_of (recv_msg true s).0)) [
        | inl g ↦ rw (some_left, g) same
        | inr (inl g) ↦ rw (some_left, g) same
        | inr (inr (x, g)) ↦ elim (Stepped-cases (round k remain x bytes)) [
          | inl (e, b, t) ↦ rw (some_left, g, t) same
          | inr (m, b, t) ↦
              rw (some_left, g, t)
                (receive_loop-outgoing round n (k + 1) m b (recv_msg true s).1 ∙ same)
        ]
      ]
    ]
