-- ===== src/Main/Connections.antt =====
-- The connections that the main loop counts.
use file_server.Base.{
  ℕ, zero, suc, ◌+◌, ◌-◌, ◌≤◌, ◌≡◌, refl, ap, subst, ◌∙◌, inl, inr, true, false, Option, none, some,
  List, [], ◌∷◌, ◌++◌, arith, ◌==◌, leb, Bool-cases, Option-cases, length, length-set, get_elem?,
  set,
}
use file_server.Base.Word.{is_negative}
use file_server.Jobs.{IpcMsg, assign_job, worker_done}
use file_server.Main.{
  Main, Poll, max_client, wthr_num, accept_client, worker_loop, serve_client, slot_read, readable,
  client_loop, after_workers, after_accept, connected, main_round,
}

-- How many slots have a connection.
abbrev pub connections : List (Option ℕ) → ℕ
connections [] = 0
connections (none ∷ fds) = connections fds
connections (some fd ∷ fds) = suc (connections fds)

-- The main loop's count is that of the slots, of which there are 200.
pub record IsCounted (m : Main) : Type 0 where
  pub count : m.cur_con ≡ connections m.fds
  pub slots : length m.fds ≡ max_client

-- What was done, if there was no bad access, leaves it so.
abbrev pub Counted : Option Main → Type 0
Counted none = Unit
Counted (some m) = IsCounted m

abbrev CountedLeft : Option (ℕ × Main) → Type 0
CountedLeft none = Unit
CountedLeft (some (nread, m)) = IsCounted m

-- One connection more, in as many slots.
abbrev Accepted : List (Option ℕ) → Option (ℕ × List (Option ℕ)) → Type 0
Accepted fds none = Unit
Accepted fds (some (k, fds')) =
    (connections fds' ≡ suc (connections fds)) × (length fds' ≡ length fds)

abbrev behind : Option ℕ → Option (ℕ × List (Option ℕ)) → Option (ℕ × List (Option ℕ))
behind x none = none
behind x (some (k, fds)) = some (k, x ∷ fds)

behind-Accepted :
    (x : Option ℕ) (fds : List (Option ℕ)) (r : Option (ℕ × List (Option ℕ)))
    → Accepted fds r
    → Accepted (x ∷ fds) (elim r [ none ↦ none | some (k, fds') ↦ some (k, x ∷ fds') ])
behind-Accepted x fds none h = tt
behind-Accepted none fds (some (k, fds')) h = (h.0, ap suc h.1)
behind-Accepted (some fd) fds (some (k, fds')) h = (ap suc h.0, ap suc h.1)

accept_client-Accepted :
    (accepts : ℕ → ℕ) (c : ℕ) (fds : List (Option ℕ)) → Accepted fds (accept_client accepts c fds)
unfolding accept_client
accept_client-Accepted accepts c [] = tt
accept_client-Accepted accepts c (some fd ∷ fds) =
    behind-Accepted (some fd) fds (accept_client accepts (c + 1) fds)
      (accept_client-Accepted accepts (c + 1) fds)
accept_client-Accepted accepts c (none ∷ fds) = elim (Bool-cases (is_negative (accepts c))) [
  | inr ok ↦ rw ok (refl, refl)
  | inl failed ↦ rw failed (
      behind-Accepted none fds (accept_client accepts (c + 1) fds)
        (accept_client-Accepted accepts (c + 1) fds))
]

pub connections_le : (fds : List (Option ℕ)) → connections fds ≤ length fds
connections_le [] = omega arith
connections_le (none ∷ fds) = omega (arith, connections_le fds)
connections_le (some fd ∷ fds) = omega (arith, connections_le fds)

-- A connection less.
connections-set :
    (fds : List (Option ℕ)) (c fd : ℕ)
    → get_elem? fds c ≡ some (some fd)
    → suc (connections (set fds c none)) ≡ connections fds
connections-set [] c fd e = cc
connections-set (none ∷ fds) zero fd e = cc
connections-set (some fd' ∷ fds) zero fd e = refl
connections-set (none ∷ fds) (suc c) fd e = connections-set fds c fd e
connections-set (some fd' ∷ fds) (suc c) fd e = ap suc (connections-set fds c fd e)

worker_loop-CountedLeft :
    (workers : ℕ → Option IpcMsg) (n i nread : ℕ) (m : Main)
    → IsCounted m
    → CountedLeft (worker_loop workers n i nread m)
unfolding worker_loop
worker_loop-CountedLeft workers zero i nread m v = v
worker_loop-CountedLeft workers (suc n) i nread m v = elim (Option-cases (workers i)) [
  | inl quiet ↦ rw (quiet, CountedLeft) (worker_loop-CountedLeft workers n (i + 1) nread m v)
  | inr (msg, ready) ↦ elim (Option-cases (worker_done i m.jobs)) [
    | inl bad ↦ rw (ready, bad, CountedLeft) tt
    | inr (jobs, ok) ↦ elim (Bool-cases (leb nread 1)) [
      | inl last ↦ rw (ready, ok, last, CountedLeft) (record { count = v.count; slots = v.slots })
      | inr more ↦
          rw (ready, ok, more, CountedLeft)
            (worker_loop-CountedLeft workers n (i + 1) (nread - 1) _
              (record { count = v.count; slots = v.slots }))
    ]
  ]
]

serve_client-Counted :
    (p : Poll) (c fd : ℕ) (got : Option IpcMsg) (m : Main)
    → get_elem? m.fds c ≡ some (some fd)
    → IsCounted m
    → Counted (serve_client p c got m)
unfolding serve_client
serve_client-Counted p c fd none m at v = record {
  count = ground (arith, v.count, v.slots, connections-set m.fds c fd at, connections_le m.fds);
  slots = length-set m.fds c none ∙ v.slots;
}
serve_client-Counted p c fd (some msg) m at v =
    elim (Option-cases (assign_job (p.pcopy c) (p.pnode c) msg m.jobs)) [
      | inl bad ↦ rw (bad, Counted) tt
      | inr (jobs, ok) ↦ rw (ok, Counted) (record { count = v.count; slots = v.slots })
    ]

slot_read-connected :
    (x : Option (Option ℕ)) (ready : Option (Option IpcMsg)) (got : Option IpcMsg)
    → slot_read x ready ≡ some got
    → (fd : ℕ) × (x ≡ some (some fd))
slot_read-connected (some (some fd)) ready got e = (fd, refl)
slot_read-connected (some none) ready got e = cc
slot_read-connected none ready got e = cc

served :
    (p : Poll) (n c nread : ℕ) (got : Option IpcMsg) (m : Main)
    → ((k : ℕ) (m' : Main) → IsCounted m' → Counted (client_loop p n c k m'))
    → IsCounted m
    → Counted (elim got [
      | none ↦ client_loop p n c nread m
      | some msg ↦ elim (leb nread 1) [ true ↦ some m | false ↦ client_loop p n c (nread - 1) m ]
    ])
served p n c nread none m later v = later nread m v
served p n c nread (some msg) m later v = elim (Bool-cases (leb nread 1)) [
  | inl last ↦ rw (last, Counted) v
  | inr more ↦ rw (more, Counted) (later (nread - 1) m v)
]

client_loop-Counted :
    (p : Poll) (n c nread : ℕ) (m : Main) → IsCounted m → Counted (client_loop p n c nread m)
unfolding client_loop
client_loop-Counted p zero c nread m v = v
client_loop-Counted p (suc n) c nread m v = elim (Option-cases (readable p m c)) [
  | inl quiet ↦ rw (quiet, Counted) (client_loop-Counted p n (c + 1) nread m v)
  | inr (got, ready) ↦
      let (fd, at) = slot_read-connected (get_elem? m.fds c) (p.clients c) got ready in
      elim (Option-cases (serve_client p c got m)) [
        | inl bad ↦ rw (ready, bad, Counted) tt
        | inr (m', ok) ↦
            rw (ready, ok, Counted)
              (served p n (c + 1) nread got m' (λ k m' v'. client_loop-Counted p n (c + 1) k m' v')
                (subst Counted ok (serve_client-Counted p c fd got m at v)))
      ]
]

after_workers-Counted :
    (p : Poll) (r : Option (ℕ × Main)) → CountedLeft r → Counted (after_workers p r)
unfolding after_workers
after_workers-Counted p none v = tt
after_workers-Counted p (some (zero, m)) v = v
after_workers-Counted p (some (suc nread, m)) v = elim (Option-cases p.ethr) [
  | inl quiet ↦ rw (quiet, Counted) (client_loop-Counted p m.polled 0 (suc nread) m v)
  | inr (msg, ready) ↦
      rw (ready, Counted)
        (sent nread (record m { sent = m.sent ++ (msg ∷ []) })
          (record { count = v.count; slots = v.slots }))
]
  where
    sent :
        (left : ℕ) (m' : Main)
        → IsCounted m'
        → Counted (elim left [ zero ↦ some m' | suc k ↦ client_loop p m.polled 0 (suc k) m' ])
    sent zero m' v' = v'
    sent (suc k) m' v' = client_loop-Counted p m.polled 0 (suc k) m' v'

after_accept-Counted :
    (p : Poll) (nread : ℕ) (m : Main) → IsCounted m → Counted (after_accept p nread m)
unfolding after_accept
after_accept-Counted p zero m v = v
after_accept-Counted p (suc nread) m v =
    after_workers-Counted p _ (worker_loop-CountedLeft p.workers wthr_num 0 (suc nread) m v)

-- Where the main loop's count of connections is that of its connected slots, of which there are
-- 200, it is so after a round that has no bad access, whatever `poll` finds, `accept` returns, and
-- is received.
pub main_round-Counted : (p : Poll) (m : Main) → IsCounted m → Counted (main_round p m)
unfolding main_round
main_round-Counted p m v = elim (Bool-cases (p.nread == 0)) [
  | inl none_ready ↦ rw (none_ready, Counted) v
  | inr ready ↦ elim (Bool-cases p.listening) [
    | inr quiet ↦ rw (ready, quiet, Counted) (after_accept-Counted p p.nread m v)
    | inl asked ↦
        rw (ready, asked, Counted)
          (accepted (accept_client p.accepts 0 m.fds) (accept_client-Accepted p.accepts 0 m.fds))
  ]
]
  where
    accepted :
        (r : Option (ℕ × List (Option ℕ)))
        → Accepted m.fds r
        → Counted (elim r [
          | none ↦ some m
          | some (k, fds) ↦ after_accept p (p.nread - 1) (connected k fds m)
        ])
    accepted none h = v
    accepted (some (k, fds)) h = after_accept-Counted p (p.nread - 1) (connected k fds m) (record {
      count = ground (arith, h.0, v.count, v.slots, connections_le m.fds);
      slots = h.1 ∙ v.slots;
    })
