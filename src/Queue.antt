-- ===== src/Queue.antt =====
-- src/include/tools/queue.h: the queues of one kind of `queue_head`. A queue is named by a number,
-- and so is the structure that a `queue_head` stands in.
pub mod Order
use fomo.Base.{
  ℕ, ◌≡◌, List, [], ◌∷◌, ◌++◌, Option, none, some, Bool, ◌==◌, update, remove, head?, is_nil, add32,
  sub32, if◌then◌else◌, false,
}

-- `items q` is the linked list of `struct queue` number `q`, first to last, `len q` its length
-- field, and `parent h` the field `parent_queue` of head `h`.
pub record Queues : Type 0 where
  pub items : ℕ → List ℕ
  pub len : ℕ → ℕ
  pub parent : ℕ → Option ℕ

-- What `calloc` leaves: empty queues, and heads that are in none.
abbrev pub no_queues : Queues
no_queues = record { items = λ _. []; len = λ _. 0; parent = λ _. none }

-- `queue_init`: heads that were in the queue keep their `parent_queue`.
unfoldable pub init : Queues → ℕ → Queues
init s q = record s { items = update s.items q []; len = update s.len q 0 }

-- `queue_head_init`
unfoldable pub head_init : Queues → ℕ → Queues
head_init s h = record s { parent = update s.parent h none }

-- `queue_empty`
unfoldable pub empty : Queues → ℕ → Bool
empty s q = is_nil (s.items q)

-- `queue_push`: at the tail.
unfoldable pub push : Queues → ℕ → ℕ → Queues
push s q h = record s {
  items = update s.items q (s.items q ++ h ∷ []);
  len = update s.len q (add32 (s.len q) 1);
  parent = update s.parent h (some q);
}

-- `queue_remove`: nothing happens to a head that is in no queue.
unfoldable pub take_out : Queues → ℕ → Queues
take_out s h = elim (s.parent h) [
  | none ↦ s
  | some q ↦ record s {
    items = update s.items q (remove h (s.items q));
    len = update s.len q (sub32 (s.len q) 1);
    parent = update s.parent h none;
  }
]

-- `queue_peek`
unfoldable pub peek : Queues → ℕ → Option ℕ
peek s q = head? (s.items q)

-- `queue_pop`
unfoldable pub pop : Queues → ℕ → Option ℕ × Queues
pop s q = elim (peek s q) [ none ↦ (none, s) | some h ↦ (some h, take_out s h) ]

-- `in_queue`
unfoldable pub in_queue : Queues → ℕ → ℕ → Bool
in_queue s q h = elim (s.parent h) [ none ↦ false | some p ↦ q == p ]
