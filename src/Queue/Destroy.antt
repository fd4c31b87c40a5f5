-- ===== src/Queue/Destroy.antt =====
-- `queue_destroy` on the cells of the queue.
use file_server.Base.{
  ℕ, zero, suc, ◌<◌, ◌≡◌, refl, ◌∙◌, ap, false, none, some, List, [], ◌∷◌, ◌==◌, arith, length, All,
}
use file_server.Queue.{Heap, Queue, free, destroy_loop, queue_destroy}
use file_server.Queue.Chain.{Cell, first, Chain, Distinct, Chain-free}
use file_server.Queue.Cells.{Holds, datas}

-- The heap without the nodes of the cells.
abbrev pub freed : List Cell → Heap → Heap
freed [] h = h
freed (c ∷ cs) h = freed cs (free h c.0)

destroy_loop-all :
    (fuel : ℕ) (cs : List Cell) (h : Heap)
    → length cs < fuel
    → Chain h cs
    → Distinct cs
    → destroy_loop fuel (first cs) h ≡ some (datas cs, freed cs h)
unfolding destroy_loop
destroy_loop-all zero cs h f ch d = absurd (omega arith)
destroy_loop-all (suc fuel) [] h f ch d = refl
destroy_loop-all (suc fuel) (c ∷ cs) h f ch d =
    rw
      (ch.0, destroy_loop-all fuel cs (free h c.0) (omega arith) (Chain-free h c.0 cs d.0 ch.1) d.1)
      refl

freed-none : (cs : List Cell) (h : Heap) (p : ℕ) → h p ≡ none → freed cs h p ≡ none
freed-none [] h p e = e
freed-none (c ∷ cs) h p e = freed-none cs (free h c.0) p (ground (arith, e))

freed-All : (cs : List Cell) (h : Heap) → All (λ c. freed cs h c.0 ≡ none) cs
freed-All [] h = tt
freed-All (c ∷ cs) h = (freed-none cs (free h c.0) c.0 (ground arith), freed-All cs (free h c.0))

freed-other :
    (cs : List Cell) (h : Heap) (p : ℕ) → All (λ c. (p == c.0) ≡ false) cs → freed cs h p ≡ h p
freed-other [] h p a = refl
freed-other (c ∷ cs) h p a = freed-other cs (free h c.0) p a.1 ∙ rw (a.0) refl

-- `queue_destroy` of a queue that holds some cells ends within one round for each cell and one for
-- the test: it hands on the data of every cell once and in order, and frees every node. The head
-- still points where it did.
pub queue_destroy-All :
    (fuel : ℕ) (q : Queue) (cs : List Cell)
    → Holds q cs
    → length cs < fuel
    → (q' : Queue) × (queue_destroy fuel q ≡ some (datas cs, q'))
      × All (λ c. q'.heap c.0 ≡ none) cs
      × (q'.head ≡ q.head)
unfolding queue_destroy
queue_destroy-All fuel q cs h f =
    let ran =
      ap (λ p. destroy_loop fuel p q.heap) h.head
      ∙ destroy_loop-all fuel cs q.heap f h.chain h.distinct in
    (record q { heap = freed cs q.heap }, rw (ran, queue_destroy) refl, freed-All cs q.heap, refl)
