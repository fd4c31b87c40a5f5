-- ===== src/Queue.antt =====
-- file_server/src/server/msg_queue.c: the job queue, as nodes in a heap.
pub mod Chain
pub mod Cells
pub mod Fifo
pub mod Destroy
use file_server.Base.{
  ℕ, zero, suc, Bool, true, false, Option, none, some, List, [], ◌∷◌, ◌++◌, ◌==◌, if◌then◌else◌,
}
use file_server.Base.Word.{add_word, sub_word}

-- `node_t`. A pointer is an address, and NULL is `none`.
pub record Node : Type 0 where
  pub next : Option ℕ
  pub payload : ℕ

-- The nodes that are allocated.
abbrev pub Heap : Type 0
Heap = ℕ → Option Node

abbrev pub write : Heap → ℕ → Node → Heap
write h p n = λ q. if q == p then some n else h q

abbrev pub free : Heap → ℕ → Heap
free h p = λ q. if q == p then none else h q

-- `queue_t`, with the heap that its nodes stand in.
pub record Queue : Type 0 where
  pub heap : Heap
  pub head : Option ℕ
  pub tail : Option ℕ
  pub size : ℕ

unfoldable pub queue_init : Heap → Queue
queue_init h = record { heap = h; head = none; tail = none; size = 0 }

-- `enqueue` where `malloc` returns `pnode`. `none` is an access through NULL or to a freed node.
unfoldable pub enqueue : ℕ → ℕ → Queue → Option Queue
enqueue pnode pdata q =
    let h : Heap = write q.heap pnode (record { next = none; payload = pdata }) in
    if q.size == 0
    then some (record { heap = h; head = some pnode; tail = some pnode; size = 1 })
    else elim (q.tail) [
      | none ↦ none
      | some t ↦ elim (h t) [
        | none ↦ none
        | some n ↦ some (record {
          heap = write h t (record n { next = some pnode });
          head = q.head;
          tail = some pnode;
          size = add_word q.size 1;
        })
      ]
    ]

abbrev pub tail_after : Option ℕ → Option ℕ → Option ℕ
tail_after none t = none
tail_after (some p) t = t

-- `dequeue`: the data, or NULL where the queue is empty.
unfoldable pub dequeue : Queue → Option (Option ℕ × Queue)
dequeue q = if q.size == 0 then some (none, q) else elim (q.head) [
  | none ↦ none
  | some p ↦ elim (q.heap p) [
    | none ↦ none
    | some n ↦ some (
      some n.payload,
      record {
        heap = free q.heap p;
        head = n.next;
        tail = tail_after n.next q.tail;
        size = sub_word q.size 1;
      },
    )
  ]
]

-- The loop of `queue_destroy` from `cur` on: the data that it hands to the deallocator and frees, in
-- order, and the heap. `none` is an access to a freed node, or, in the model only, the end of fuel.
unfoldable pub destroy_loop : ℕ → Option ℕ → Heap → Option (List ℕ × Heap)
destroy_loop zero cur h = none
destroy_loop (suc fuel) none h = some ([], h)
destroy_loop (suc fuel) (some p) h = elim (h p) [
  | none ↦ none
  | some n ↦ elim (destroy_loop fuel n.next (free h p)) [
    | none ↦ none
    | some (ds, h') ↦ some (n.payload ∷ ds, h')
  ]
]

-- `queue_destroy`: the fields of the queue stay as they are.
unfoldable pub queue_destroy : ℕ → Queue → Option (List ℕ × Queue)
unfolding destroy_loop
queue_destroy fuel q = elim (destroy_loop fuel q.head q.heap) [
  | none ↦ none
  | some (ds, h) ↦ some (ds, record q { heap = h })
]
