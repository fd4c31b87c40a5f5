-- ===== src/Main/Waiting.antt =====
-- The main loop while no worker answers: what becomes of the jobs that wait.
use file_server.Base.{
  ℕ, zero, suc, ◌+◌, ◌-◌, ◌≡◌, refl, inl, inr, Option, none, some, List, [], ◌∷◌, ◌++◌, ◌==◌,
  Bool-cases, Option-cases, All, get_elem?, subst,
}
use file_server.Jobs.{IpcMsg, Jobs}
use file_server.Main.{
  Main, Poll, wthr_num, accept_client, worker_loop, serve_client, slot_read, readable, client_loop,
  after_workers, after_accept, connected, main_round,
}

-- No worker answers, and no client sends a message. Clients may come and go, and the event thread
-- may write.
pub record IsQuiet (p : Poll) : Type 0 where
  pub workers : (i : ℕ) → p.workers i ≡ none
  pub clients : (c : ℕ) (msg : IpcMsg) → ¬ (p.clients c ≡ some (some msg))

-- There was no bad access, and the jobs are these.
abbrev pub Keeps : Jobs → Option Main → Type 0
Keeps jobs none = ⊥
Keeps jobs (some m) = m.jobs ≡ jobs

-- The rounds of the main loop, one for each result of `poll`.
unfoldable pub main_rounds : List Poll → Main → Option Main
main_rounds [] m = some m
main_rounds (p ∷ ps) m = elim (main_round p m) [ none ↦ none | some m' ↦ main_rounds ps m' ]

worker_loop-quiet :
    (p : Poll) (n i nread : ℕ) (m : Main)
    → IsQuiet p
    → worker_loop p.workers n i nread m ≡ some (nread, m)
unfolding worker_loop
worker_loop-quiet p zero i nread m q = refl
worker_loop-quiet p (suc n) i nread m q =
    rw (q.workers i, worker_loop) (worker_loop-quiet p n (i + 1) nread m q)

slot_read-of :
    (x : Option (Option ℕ)) (ready : Option (Option IpcMsg)) (got : Option IpcMsg)
    → slot_read x ready ≡ some got
    → ready ≡ some got
slot_read-of (some (some fd)) ready got e = e
slot_read-of (some none) ready got e = cc
slot_read-of none ready got e = cc

client_loop-Keeps :
    (p : Poll) (n c nread : ℕ) (m : Main) → IsQuiet p → Keeps m.jobs (client_loop p n c nread m)
unfolding client_loop serve_client
client_loop-Keeps p zero c nread m q = refl
client_loop-Keeps p (suc n) c nread m q = elim (Option-cases (readable p m c)) [
  | inl quiet ↦ rw (quiet, Keeps) (client_loop-Keeps p n (c + 1) nread m q)
  | inr (none, ready) ↦ rw (ready, Keeps) (client_loop-Keeps p n (c + 1) nread _ q)
  | inr (some msg, ready) ↦
      absurd (q.clients c msg (slot_read-of (get_elem? m.fds c) (p.clients c) (some msg) ready))
]

after_workers-Keeps :
    (p : Poll) (nread : ℕ) (m : Main) → IsQuiet p → Keeps m.jobs (after_workers p (some (nread, m)))
unfolding after_workers
after_workers-Keeps p zero m q = refl
after_workers-Keeps p (suc nread) m q = elim (Option-cases p.ethr) [
  | inl quiet ↦ rw (quiet, Keeps) (client_loop-Keeps p m.polled 0 (suc nread) m q)
  | inr (msg, ready) ↦ rw (ready, Keeps) (sent nread (record m { sent = m.sent ++ (msg ∷ []) }))
]
  where
    sent :
        (left : ℕ) (m' : Main)
        → Keeps m'.jobs
            (elim left [ zero ↦ some m' | suc k ↦ client_loop p m'.polled 0 (suc k) m' ])
    sent zero m' = refl
    sent (suc k) m' = client_loop-Keeps p m'.polled 0 (suc k) m' q

after_accept-Keeps :
    (p : Poll) (nread : ℕ) (m : Main) → IsQuiet p → Keeps m.jobs (after_accept p nread m)
unfolding after_accept
after_accept-Keeps p zero m q = refl
after_accept-Keeps p (suc nread) m q =
    rw (worker_loop-quiet p wthr_num 0 (suc nread) m q) (after_workers-Keeps p (suc nread) m q)

main_round-Keeps : (p : Poll) (m : Main) → IsQuiet p → Keeps m.jobs (main_round p m)
unfolding main_round
main_round-Keeps p m q = elim (Bool-cases (p.nread == 0)) [
  | inl none_ready ↦ rw (none_ready, Keeps) refl
  | inr ready ↦ elim (Bool-cases p.listening) [
    | inr quiet ↦ rw (ready, quiet, Keeps) (after_accept-Keeps p p.nread m q)
    | inl asked ↦ rw (ready, asked, Keeps) (accepted (accept_client p.accepts 0 m.fds))
  ]
]
  where
    accepted :
        (r : Option (ℕ × List (Option ℕ)))
        → Keeps m.jobs (elim r [
          | none ↦ some m
          | some (k, fds) ↦ after_accept p (p.nread - 1) (connected k fds m)
        ])
    accepted none = refl
    accepted (some (k, fds)) = after_accept-Keeps p (p.nread - 1) (connected k fds m) q

Keeps-some :
    (jobs : Jobs) (r : Option Main) → Keeps jobs r → (m : Main) × (r ≡ some m) × (m.jobs ≡ jobs)
Keeps-some jobs none h = absurd h
Keeps-some jobs (some m) h = (m, refl, h)

-- A job that waits stays where it is until a worker answers. In any number of rounds in which no
-- worker answers and no client sends a message there is no bad access, and at their end the queue,
-- the messages that wait and what was written to the workers are as before, also where some worker
-- does not run, clients come and go, and the event thread's answers are sent.
pub jobs_wait_for_an_answer :
    (ps : List Poll) (m : Main) → All IsQuiet ps → Keeps m.jobs (main_rounds ps m)
unfolding main_rounds
jobs_wait_for_an_answer [] m q = refl
jobs_wait_for_an_answer (p ∷ ps) m q =
    let (m', done, same) = Keeps-some m.jobs (main_round p m) (main_round-Keeps p m q.0) in
    rw (done, Keeps)
      (subst (λ j. Keeps j (main_rounds ps m')) same (jobs_wait_for_an_answer ps m' q.1))
