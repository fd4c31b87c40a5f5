-- ===== src/Jobs/Order.antt =====
-- `assign_job` and `get_new_job` on the messages that wait.
use file_server.Base.{
  ℕ, suc, ◌^◌, ◌<◌, ◌≡◌, refl, ◌∙◌, ◌⊎◌, inl, inr, Bool, true, false, none, some, List, [], ◌∷◌,
  ◌++◌, map, ◌==◌, Option-cases, subst, get_elem?, arith, length, All,
}
use file_server.Queue.{Queue, enqueue, dequeue}
use file_server.Queue.Chain.{Cell}
use file_server.Queue.Cells.{Holds, enqueue-Holds, dequeue-Holds, dequeue-empty}
use file_server.Jobs.{
  IpcMsg, Jobs, first_idle, write_pipe, with_copy, assign_job, get_new_job, worker_done,
}
use file_server.Jobs.Copies.{
  OwnCopies, copied, copied-with, NoCopy-fresh, copied-append, OwnCopies-append,
}

-- The messages that wait, in order: each node of the queue brings a copy of its own.
pub record Waits (s : Jobs) (cs : List Cell) (ms : List IpcMsg) : Type 0 where
  pub holds : Holds s.queue cs
  pub copies : copied s.copies cs ≡ map some ms
  pub own : OwnCopies cs

first_idle-some : (bs : List Bool) (i : ℕ) → first_idle bs ≡ some i → get_elem? bs i ≡ some false
unfolding first_idle
first_idle-some [] i e = cc
first_idle-some (false ∷ bs) i e = ground arith
first_idle-some (true ∷ bs) i e = elim (Option-cases (first_idle bs)) [
  | inl none_idle ↦ absurd (cc (rw none_idle at e))
  | inr (k, found) ↦
      let at : suc k ≡ i = ground (arith, rw found at e) in
      subst (λ j. get_elem? (true ∷ bs) j ≡ some false) at (first_idle-some bs k found)
]

first_idle-none : (bs : List Bool) → first_idle bs ≡ none → All (λ b. b ≡ true) bs
unfolding first_idle
first_idle-none [] e = tt
first_idle-none (false ∷ bs) e = cc
first_idle-none (true ∷ bs) e = elim (Option-cases (first_idle bs)) [
  | inl none_idle ↦ (refl, first_idle-none bs none_idle)
  | inr (k, found) ↦ cc (rw found at e)
]

assign_job-idle :
    (pcopy pnode i : ℕ) (m : IpcMsg) (s : Jobs)
    → first_idle s.isrun ≡ some i
    → assign_job pcopy pnode m s ≡ some (record s { pipes = write_pipe s.pipes i m })
unfolding assign_job
assign_job-idle pcopy pnode i m s e = rw (e, assign_job) refl

assign_job-busy :
    (pcopy pnode : ℕ) (m : IpcMsg) (s : Jobs) (q : Queue)
    → first_idle s.isrun ≡ none
    → enqueue pnode pcopy s.queue ≡ some q
    → assign_job pcopy pnode m s
      ≡ some (record s { copies = with_copy s.copies pcopy (some m); queue = q })
unfolding assign_job
assign_job-busy pcopy pnode m s q e made = rw (e, made, assign_job) refl

same : (q : ℕ) → (q == q) ≡ true
same q = ground arith

-- Where the nodes of the queue bring one copy of a message each and `malloc` returns memory that is
-- not in use, `assign_job` makes no bad access. Either it writes the message to the pipe of a
-- worker that does not run, and nothing else changes, or all workers run, and the message waits
-- behind those that wait already.
pub assign_job-Waits :
    (pcopy pnode : ℕ) (m : IpcMsg) (s : Jobs) (cs : List Cell) (ms : List IpcMsg)
    → Waits s cs ms
    → s.copies pcopy ≡ none
    → s.queue.heap pnode ≡ none
    → suc (length cs) < 2 ^ 32
    → (s' : Jobs) × (assign_job pcopy pnode m s ≡ some s')
      × (((i : ℕ) × (get_elem? s.isrun i ≡ some false)
            × (s' ≡ record s { pipes = write_pipe s.pipes i m }))
          ⊎ (All (λ b. b ≡ true) s.isrun
              × (s'.pipes ≡ s.pipes)
              × Waits s' (cs ++ ((pnode, pcopy) ∷ [])) (ms ++ (m ∷ []))))
assign_job-Waits pcopy pnode m s cs ms w free_copy free_node small =
    elim (Option-cases (first_idle s.isrun)) [
      | inr (i, found) ↦ (
        _,
        assign_job-idle pcopy pnode i m s found,
        inl (i, first_idle-some s.isrun i found, refl),
      )
      | inl none_idle ↦
          let (q, made, holds) = enqueue-Holds pnode pcopy s.queue cs w.holds free_node small in
          let apart = NoCopy-fresh s.copies pcopy cs ms free_copy w.copies in
          (
            _,
            assign_job-busy pcopy pnode m s q none_idle made,
            inr (
              first_idle-none s.isrun none_idle,
              refl,
              record {
                holds = holds;
                copies =
                    copied-append (with_copy s.copies pcopy (some m)) cs ms (pnode, pcopy) m
                      (copied-with s.copies pcopy (some m) cs apart ∙ w.copies)
                      (rw (same pcopy) refl);
                own = OwnCopies-append cs (pnode, pcopy) w.own apart;
              },
            ),
          )
    ]

worker_done-empty :
    (i : ℕ) (s : Jobs) → dequeue s.queue ≡ some (none, s.queue) → worker_done i s ≡ some s
unfolding worker_done get_new_job
worker_done-empty i s e = rw (e, worker_done, get_new_job) refl

worker_done-next :
    (i p : ℕ) (s : Jobs) (m : IpcMsg) (q : Queue)
    → dequeue s.queue ≡ some (some p, q)
    → s.copies p ≡ some m
    → worker_done i s
      ≡ some (record {
        isrun = s.isrun;
        pipes = write_pipe s.pipes i m;
        copies = with_copy s.copies p none;
        queue = q;
      })
unfolding worker_done get_new_job
worker_done-next i p s m q e at = rw (e, at, worker_done, get_new_job) refl

-- Where the nodes of the queue bring one copy of a message each, a worker that has answered is
-- handed the message that waited longest, and the others keep their order; nothing changes where no
-- message waits.
pub worker_done-Waits :
    (i : ℕ) (s : Jobs) (cs : List Cell) (ms : List IpcMsg)
    → Waits s cs ms
    → length cs < 2 ^ 32
    → (s' : Jobs) × (worker_done i s ≡ some s')
      × (((ms ≡ []) × (s' ≡ s))
          ⊎ ((cs' : List Cell) × (m : IpcMsg) × (ms' : List IpcMsg) × (ms ≡ m ∷ ms')
              × (s'.pipes ≡ write_pipe s.pipes i m)
              × Waits s' cs' ms'))
worker_done-Waits i s [] [] w small =
    (s, worker_done-empty i s (dequeue-empty s.queue w.holds), inl (refl, refl))
worker_done-Waits i s [] (m ∷ ms) w small = cc (w.copies)
worker_done-Waits i s (c ∷ cs) [] w small = cc (w.copies)
worker_done-Waits i s (c ∷ cs) (m ∷ ms) w small =
    let (q, took, holds, _) = dequeue-Holds s.queue c cs w.holds small in
    let (at, rest) = split w.copies in
    (
      _,
      worker_done-next i c.1 s m q took at,
      inr (
        cs,
        m,
        ms,
        refl,
        refl,
        record {
          holds = holds;
          copies = copied-with s.copies c.1 none cs w.own.0 ∙ rest;
          own = w.own.1;
        },
      ),
    )
  where
    split :
        copied s.copies (c ∷ cs) ≡ map some (m ∷ ms)
        → (s.copies c.1 ≡ some m) × (copied s.copies cs ≡ map some ms)
    split e = (cc, cc)
