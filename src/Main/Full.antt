-- ===== src/Main/Full.antt =====
-- A round of the main loop where no slot is free.
use file_server.Base.{
  ℕ, ◌+◌, ◌≡◌, refl, inl, inr, true, Option, none, some, List, [], ◌∷◌, arith, ◌==◌, Bool-cases,
  length,
}
use file_server.Main.{Main, Poll, max_client, accept_client, main_round}
use file_server.Main.Connections.{connections, connections_le, IsCounted}

accept_client-full :
    (accepts : ℕ → ℕ) (c : ℕ) (fds : List (Option ℕ))
    → connections fds ≡ length fds
    → accept_client accepts c fds ≡ none
unfolding accept_client
accept_client-full accepts c [] h = refl
accept_client-full accepts c (none ∷ fds) h = absurd (omega (arith, connections_le fds))
accept_client-full accepts c (some fd ∷ fds) h =
    rw (accept_client-full accepts (c + 1) fds (omega arith)) refl

-- Where all 200 slots are connected and counted and a further connection waits, a round of the main
-- loop changes nothing: no answer of a worker or of the event thread is sent, and no client is
-- read.
pub full_rounds_do_nothing :
    (p : Poll) (m : Main)
    → IsCounted m
    → m.cur_con ≡ max_client
    → p.listening ≡ true
    → main_round p m ≡ some m
unfolding main_round
full_rounds_do_nothing p m v full asked = elim (Bool-cases (p.nread == 0)) [
  | inl none_ready ↦ rw none_ready refl
  | inr ready ↦
      rw (ready, asked, accept_client-full p.accepts 0 m.fds (omega (arith, v.count, v.slots))) refl
]
