-- ===== src/Queue/Fifo.antt =====
-- The queue under a sequence of calls, and a list of data under the same.
use file_server.Base.{
  ℕ, ◌+◌, ◌^◌, ◌<◌, ◌≡◌, refl, ◌∙◌, ap, Option, none, some, List, [], ◌∷◌, ◌++◌, arith, length,
  length-append,
}
use file_server.Queue.{Queue, enqueue, dequeue}
use file_server.Queue.Chain.{Cell}
use file_server.Queue.Cells.{Holds, datas, enqueue-Holds, dequeue-Holds, dequeue-empty}

-- An operation of the queue: `enqueue` of the data in the node that `malloc` returns, or `dequeue`.
pub data Op : Type 0 where
  put : ℕ → ℕ → Op
  get : Op

-- The calls in their order: what each `dequeue` returned, and the queue.
unfoldable pub run : List Op → Queue → Option (List (Option ℕ) × Queue)
run [] q = some ([], q)
run (put p d ∷ ops) q = elim (enqueue p d q) [ none ↦ none | some q' ↦ run ops q' ]
run (get ∷ ops) q = elim (dequeue q) [
  | none ↦ none
  | some (r, q') ↦ elim (run ops q') [ none ↦ none | some (rs, q'') ↦ some (r ∷ rs, q'') ]
]

-- `malloc` returns memory that is not in use.
abbrev pub Mallocs : List Op → Queue → Type 0
Mallocs [] q = Unit
Mallocs (put p d ∷ ops) q =
    (q.heap p ≡ none) × elim (enqueue p d q) [ none ↦ Unit | some q' ↦ Mallocs ops q' ]
Mallocs (get ∷ ops) q = elim (dequeue q) [ none ↦ Unit | some (_, q') ↦ Mallocs ops q' ]

-- The same on a list of data.
unfoldable pub fifo : List Op → List ℕ → List (Option ℕ) × List ℕ
fifo [] ds = ([], ds)
fifo (put p d ∷ ops) ds = fifo ops (ds ++ (d ∷ []))
fifo (get ∷ ops) [] = let (rs, ds) = fifo ops [] in (none ∷ rs, ds)
fifo (get ∷ ops) (d ∷ ds) = let (rs, ds') = fifo ops ds in (some d ∷ rs, ds')

datas-append : (cs : List Cell) (c : Cell) → datas (cs ++ (c ∷ [])) ≡ datas cs ++ (c.1 ∷ [])
datas-append [] c = refl
datas-append (x ∷ cs) c = ap (λ ds. x.1 ∷ ds) (datas-append cs c)

run-put :
    (ops : List Op) (p d : ℕ) (q q' : Queue)
    → enqueue p d q ≡ some q'
    → run (put p d ∷ ops) q ≡ run ops q'
unfolding run
run-put ops p d q q' e = rw (e, run) refl

-- The job queue is a first-in first-out list of data: from a queue that holds some cells, a
-- sequence of calls of `enqueue` and `dequeue`, where each `malloc` returns memory that is not in
-- use and the size stays below 2 ^ 32, makes no bad access, each `dequeue` returns what it returns
-- on the list of data, NULL where that is empty, and the queue holds the data that the list ends
-- with.
pub run-refines :
    (ops : List Op) (q : Queue) (cs : List Cell)
    → Holds q cs
    → Mallocs ops q
    → length cs + length ops < 2 ^ 32
    → (q' : Queue) × (cs' : List Cell) × (run ops q ≡ some ((fifo ops (datas cs)).0, q'))
      × Holds q' cs'
      × (datas cs' ≡ (fifo ops (datas cs)).1)
unfolding run fifo
run-refines [] q cs h m small = (q, cs, refl, h, refl)
run-refines (put p d ∷ ops) q cs h m small =
    let (q1, made, h1) = enqueue-Holds p d q cs h m.0 (omega arith) in
    let rest =
      run-refines ops q1 (cs ++ ((p, d) ∷ [])) h1 (rw (made, Mallocs) at (m.1))
        (omega (arith, length-append cs ((p, d) ∷ []))) in
    let (q2, cs2, ran, h2, same_data) = rest in
    let longer = datas-append cs (p, d) in
    (
      q2,
      cs2,
      run-put ops p d q q1 made ∙ (ran ∙ ap (λ ds. some ((fifo ops ds).0, q2)) longer),
      h2,
      same_data ∙ ap (λ ds. (fifo ops ds).1) longer,
    )
run-refines (get ∷ ops) q [] h m small =
    let took = dequeue-empty q h in
    let (q2, cs2, ran, h2, same_data) =
      run-refines ops q [] h (rw (took, Mallocs) at m) (omega arith) in
    (q2, cs2, rw (took, ran, run) refl, h2, same_data)
run-refines (get ∷ ops) q (c ∷ cs) h m small =
    let (q1, took, h1, _) = dequeue-Holds q c cs h (omega arith) in
    let (q2, cs2, ran, h2, same_data) =
      run-refines ops q1 cs h1 (rw (took, Mallocs) at m) (omega arith) in
    (q2, cs2, rw (took, ran, run) refl, h2, same_data)
