-- ===== src/Queue/Cells.antt =====
-- The operations of the queue on the cells that it holds.
use file_server.Base.{
  ℕ, suc, ◌^◌, ◌<◌, ◌≡◌, refl, sym, true, false, Option, none, some, List, [], ◌∷◌, ◌++◌, map, ◌==◌,
  arith, length, length-append,
}
use file_server.Base.Word.{add_word, sub_word}
use file_server.Queue.{Node, Heap, Queue, enqueue, dequeue, write, free, tail_after}
use file_server.Queue.Chain.{
  Cell, first, last, Chain, Distinct, Chain-write, Chain-free, fresh-Apart, Distinct-append, link,
}

abbrev pub last_of : List Cell → Option ℕ
last_of [] = none
last_of (c ∷ cs) = some (last c cs)

-- The queue holds these cells, from head to tail.
pub record Holds (q : Queue) (cs : List Cell) : Type 0 where
  pub head : q.head ≡ first cs
  pub tail : q.tail ≡ last_of cs
  pub size : q.size ≡ length cs
  pub chain : Chain q.heap cs
  pub distinct : Distinct cs

abbrev pub datas : List Cell → List ℕ
datas cs = map (λ c. c.1) cs

last_of-append : (cs : List Cell) (c : Cell) → last_of (cs ++ (c ∷ [])) ≡ some c.0
last_of-append [] c = refl
last_of-append (x ∷ cs) c = go x cs
  where
    go : (y : Cell) (ds : List Cell) → some (last y (ds ++ (c ∷ []))) ≡ some c.0
    go y [] = refl
    go y (z ∷ ds) = go z ds

pub same : (q : ℕ) → (q == q) ≡ true
same q = ground arith

enqueue-empty :
    (p d : ℕ) (q : Queue)
    → Holds q []
    → (q' : Queue) × (enqueue p d q ≡ some q') × Holds q' ((p, d) ∷ [])
unfolding enqueue
enqueue-empty p d q h =
    let none_left : (q.size == 0) ≡ true = ground (arith, h.size) in
    (
      record {
        heap = write q.heap p (record { next = none; payload = d });
        head = some p;
        tail = some p;
        size = 1;
      },
      rw none_left refl,
      record {
        head = refl;
        tail = refl;
        size = refl;
        chain = (rw (same p) refl, tt);
        distinct = (tt, tt);
      },
    )

enqueue-some :
    (p d : ℕ) (q : Queue) (c : Cell) (cs : List Cell)
    → Holds q (c ∷ cs)
    → q.heap p ≡ none
    → suc (length (c ∷ cs)) < 2 ^ 32
    → (q' : Queue) × (enqueue p d q ≡ some q') × Holds q' ((c ∷ cs) ++ ((p, d) ∷ []))
unfolding enqueue
enqueue-some p d q c cs h new small =
    let apart = fresh-Apart q.heap p (c ∷ cs) new h.chain in
    let node : Node = record { next = none; payload = d } in
    let h1 : Heap = write q.heap p node in
    let (n, at, chain) =
      link h1 c cs p d (Chain-write q.heap p node (c ∷ cs) apart h.chain) h.distinct apart
        (rw (same p) refl) in
    let some_left : (q.size == 0) ≡ false = ground (arith, h.size) in
    (
      record {
        heap = write h1 (last c cs) (record n { next = some p });
        head = q.head;
        tail = some p;
        size = add_word q.size 1;
      },
      rw (some_left, h.tail, at) refl,
      record {
        head = h.head;
        tail = sym (last_of-append (c ∷ cs) (p, d));
        size = omega (arith, h.size, length-append (c ∷ cs) ((p, d) ∷ []));
        chain = chain;
        distinct = Distinct-append (c ∷ cs) p d h.distinct apart;
      },
    )

-- `enqueue` adds the data at the end.
pub enqueue-Holds :
    (p d : ℕ) (q : Queue) (cs : List Cell)
    → Holds q cs
    → q.heap p ≡ none
    → suc (length cs) < 2 ^ 32
    → (q' : Queue) × (enqueue p d q ≡ some q') × Holds q' (cs ++ ((p, d) ∷ []))
enqueue-Holds p d q [] h new small = enqueue-empty p d q h
enqueue-Holds p d q (c ∷ cs) h new small = enqueue-some p d q c cs h new small

-- `dequeue` takes the data at the front.
pub dequeue-Holds :
    (q : Queue) (c : Cell) (cs : List Cell)
    → Holds q (c ∷ cs)
    → length (c ∷ cs) < 2 ^ 32
    → (q' : Queue) × (dequeue q ≡ some (some c.1, q')) × Holds q' cs × (q'.heap c.0 ≡ none)
unfolding dequeue
dequeue-Holds q c cs h small =
    let some_left : (q.size == 0) ≡ false = ground (arith, h.size) in
    (
      record {
        heap = free q.heap c.0;
        head = first cs;
        tail = tail_after (first cs) q.tail;
        size = sub_word q.size 1;
      },
      rw (some_left, h.head, h.chain.0) refl,
      record {
        head = refl;
        tail = tail_left cs h.tail;
        size = omega (arith, h.size);
        chain = Chain-free q.heap c.0 cs h.distinct.0 h.chain.1;
        distinct = h.distinct.1;
      },
      rw (same c.0) refl,
    )
  where
    tail_left :
        (ds : List Cell) → q.tail ≡ last_of (c ∷ ds) → tail_after (first ds) q.tail ≡ last_of ds
    tail_left [] e = refl
    tail_left (x ∷ ds) e = e

pub dequeue-empty : (q : Queue) → Holds q [] → dequeue q ≡ some (none, q)
unfolding dequeue
dequeue-empty q h =
    let none_left : (q.size == 0) ≡ true = ground (arith, h.size) in rw none_left refl
