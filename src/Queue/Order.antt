-- ===== src/Queue/Order.antt =====
-- src/include/tools/queue.h: the bookkeeping of a queue, and its order.
use fomo.Base.{
  ℕ, ◌+◌, ◌<◌, ◌≡◌, false, [], ◌∷◌, ◌++◌, none, some, true, ◌==◌, if◌then◌else◌, mem, mem-snoc,
  mem-remove, refl, ap, ◌∙◌, head?, uncons, mem-cons, ==_refl, remove_absent, remove,
  remove-Distinct, append-Distinct, length, length-snoc, length-remove, Distinct, u32_mod, arith,
}
use fomo.Queue.{Queues, pop, push, peek, take_out, in_queue}

-- The bookkeeping of one queue: its length field, its order and the parent fields agree.
pub record IsValid (s : Queues) (q : ℕ) : Type 0 where
  pub len_eq : s.len q ≡ length (s.items q)
  pub distinct : Distinct (s.items q)
  pub small : length (s.items q) < u32_mod
  pub parent_in : (h : ℕ) → in_queue s q h ≡ mem h (s.items q)

pub push-IsValid :
    (s : Queues) (q h : ℕ)
    → IsValid s q
    → s.parent h ≡ none
    → length (s.items q) + 1 < u32_mod
    → IsValid (push s q h) q
unfolding push in_queue
push-IsValid s q h v p room = record {
  len_eq = ground (arith, v.len_eq, length-snoc (s.items q) h);
  distinct = ground (arith, v.parent_in h, append-Distinct (s.items q) h v.distinct);
  small = ground (arith, length-snoc (s.items q) h);
  parent_in = λ j. ground (arith, v.parent_in j, mem-snoc j (s.items q) h);
}

-- `queue_remove` keeps the length, the order and the parent fields of a valid queue in agreement,
-- whether the head is in this queue or not.
pub take_out-IsValid : (s : Queues) (q h : ℕ) → IsValid s q → IsValid (take_out s h) q
unfolding take_out in_queue
take_out-IsValid s q h v = record {
  len_eq = ground (arith, v.len_eq, v.small, v.parent_in h, length-remove h (s.items q) v.distinct);
  distinct = ground (arith, v.distinct, remove-Distinct h (s.items q) v.distinct);
  small = ground (arith, v.small, v.parent_in h, length-remove h (s.items q) v.distinct);
  parent_in = λ j. ground (arith, v.parent_in j, v.parent_in h, mem-remove j h (s.items q));
}

-- A head of the queue leaves it, and the others keep their order.
pub items-take_out :
    (s : Queues) (q h : ℕ)
    → IsValid s q
    → mem h (s.items q) ≡ true
    → (take_out s h).items q ≡ remove h (s.items q)
unfolding take_out in_queue
items-take_out s q h v m = ground (arith, v.parent_in h)

-- No other head changes its queue.
pub parent-take_out :
    (s : Queues) (h j : ℕ) → (take_out s h).parent j ≡ (if j == h then none else s.parent j)
unfolding take_out
parent-take_out s h j = ground arith

pub items-push : (s : Queues) (q h : ℕ) → (push s q h).items q ≡ s.items q ++ h ∷ []
unfolding push
items-push s q h = ground arith

pub parent-push :
    (s : Queues) (q h j : ℕ) → (push s q h).parent j ≡ (if j == h then some q else s.parent j)
unfolding push
parent-push s q h j = ground arith

-- An item that is in no queue is not taken out of one.
pub take_out_lone : (s : Queues) (h : ℕ) → s.parent h ≡ none → take_out s h ≡ s
unfolding take_out
take_out_lone s h lone = rw (lone, take_out) refl

-- The items of a queue after an item has left its queue.
pub items-take_out_any :
    (s : Queues) (q h : ℕ) → IsValid s q → (take_out s h).items q ≡ remove h (s.items q)
unfolding take_out in_queue
items-take_out_any s q h v = ground (arith, v.parent_in h, remove_absent h (s.items q))

-- A queue that is not empty has a first item.
pub peek-first :
    (s : Queues) (q : ℕ)
    → 0 < length (s.items q)
    → (h : ℕ) × (peek s q ≡ some h) × (mem h (s.items q) ≡ true)
unfolding peek
peek-first s q some_in =
    let (h, rest, first) = uncons (s.items q) some_in in
    (h, ap head? first, ap (mem h) first ∙ ground (arith, mem-cons h h rest, ==_refl h))

-- A push on another queue.
pub push_other-IsValid :
    (s : Queues) (q p h : ℕ)
    → (q == p) ≡ false
    → IsValid s q
    → s.parent h ≡ none
    → IsValid (push s p h) q
unfolding push in_queue
push_other-IsValid s q p h other v lone = record {
  len_eq = ground (arith, v.len_eq);
  distinct = ground (arith, v.distinct);
  small = ground (arith, v.small);
  parent_in = λ j. ground (arith, v.parent_in j, v.parent_in h);
}

pub items-push_other :
    (s : Queues) (q p h : ℕ) → (q == p) ≡ false → (push s p h).items q ≡ s.items q
unfolding push
items-push_other s q p h other = ground arith

-- A queue with a first item gives it up.
pub pop-some : (s : Queues) (q : ℕ) {h : ℕ} → peek s q ≡ some h → pop s q ≡ (some h, take_out s h)
unfolding pop
pop-some s q e = ap (λ o. elim o [ none ↦ (none, s) | some h ↦ (some h, take_out s h) ]) e
