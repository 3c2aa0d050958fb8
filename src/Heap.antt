-- ===== src/Heap.antt =====
-- src/include/tools/heap.h: a binary heap of heads, each with its key and its place in the array.
pub mod Valid
pub mod Up
pub mod Down
pub mod Steps
pub mod Delete
use fomo.Base.{
  ℕ, zero, suc, ◌+◌, ◌-◌, ◌/◌, Bool, true, false, Option, none, some, ltb, leb, ◌==◌, not, ◌&&◌,
  if◌then◌else◌, ◌>>=◌, update, add32, sub32, mul32,
}

-- The array has no end here; a heap in order (Valid) uses no place past its capacity.
-- `struct heap` less its function, with the two fields of each `struct heap_head`. A head is its
-- address.
pub record Heap : Type 0 where
  pub heap_arr : ℕ → Option ℕ
  pub capacity : ℕ
  pub size : ℕ
  pub key : ℕ → ℕ
  pub index : ℕ → ℕ

-- `heap_default_compare`, as `compare(a, b) < 0`. Every operation takes such a test, of the keys
-- and two heads: the field `compare`.
unfoldable pub default_less : (ℕ → ℕ) → ℕ → ℕ → Bool
default_less key a b = ltb (key a) (key b)

-- `heap_init` where `mem_alloc` finds the memory.
unfoldable pub init : (ℕ → ℕ) → (ℕ → ℕ) → ℕ → Heap
init key index capacity = record {
  heap_arr = λ _. none;
  capacity = capacity;
  size = 0;
  key = key;
  index = index;
}

-- `heap_full`
unfoldable pub full : Heap → Bool
full s = s.size == s.capacity

-- `heap__parent`
unfoldable pub parent : Heap → ℕ → Option ℕ
parent s child = if ltb 0 (s.index child) then s.heap_arr ((s.index child - 1) / 2) else none

-- `heap__left`
unfoldable pub left : Heap → ℕ → Option ℕ
left s h =
    let index = add32 (mul32 2 (s.index h)) 1 in if ltb index s.size then s.heap_arr index else none

-- `heap__right`
unfoldable pub right : Heap → ℕ → Option ℕ
right s h =
    let index = add32 (mul32 2 (s.index h)) 2 in if ltb index s.size then s.heap_arr index else none

-- `heap_swap`
unfoldable pub swap : Heap → ℕ → ℕ → Heap
swap s a b =
    let a_index = s.index b in
    let b_index = s.index a in
    record s {
      index = update (update s.index a a_index) b b_index;
      heap_arr = update (update s.heap_arr a_index (some a)) b_index (some b);
    }

-- `heap_min`
unfoldable pub min : Heap → Option ℕ
min s = if s.size == 0 then none else s.heap_arr 0

-- `in_heap` of a head that is not null.
unfoldable pub in_heap : Heap → ℕ → Bool
in_heap s h =
    if leb s.size (s.index h)
    then false
    else elim (s.heap_arr (s.index h)) [ none ↦ false | some a ↦ a == h ]

module _ (less : (ℕ → ℕ) → ℕ → ℕ → Bool) where
  -- The loop of `heap_decrease_key`, of so many rounds at most.
  unfoldable pub move_up : ℕ → Heap → ℕ → Option Heap
  move_up zero s h = none
  move_up (suc rounds) s h =
      if ltb 0 (s.index h)
      then (parent s h >>= λ p.
          (let rest = move_up rounds (swap s h p) h in if less s.key h p then rest else some s))
      else some s

  -- `heap_decrease_key`: each round halves the index.
  unfoldable pub decrease_key : Heap → ℕ → ℕ → Option Heap
  decrease_key s h key =
      if leb key (s.key h)
      then move_up (s.index h + 1) (record s { key = update s.key h key }) h
      else none

  -- `heap_insert`
  unfoldable pub insert : Heap → ℕ → ℕ → Option Heap
  insert s h key =
      if full s
      then none
      else decrease_key
          (record s {
            size = add32 s.size 1;
            key = update s.key h key;
            index = update s.index h s.size;
            heap_arr = update s.heap_arr s.size (some h);
          })
          h key

  -- The smaller of the least head so far and a child, if there is one.
  unfoldable pub least : Heap → ℕ → Option ℕ → ℕ
  least s h none = h
  least s h (some c) = if less s.key c h then c else h

  -- `heapify`, of so many calls at most.
  unfoldable pub heapify : ℕ → Heap → ℕ → Option Heap
  heapify zero s i = none
  heapify (suc calls) s i =
      if leb s.size i
      then some s
      else (s.heap_arr i >>= λ h.
          (let m = least s (least s h (left s h)) (right s h) in
            let s' = swap s h m in
            let rest = heapify calls s' (s'.index h) in if m == h then some s else rest))

  -- The loop of `heap_build`, of so many rounds at most.
  unfoldable pub build_from : ℕ → Heap → Option ℕ → Option Heap
  build_from zero s h? = none
  build_from (suc rounds) s none = some s
  build_from (suc rounds) s (some h) =
      heapify (s.size + 1) s (s.index h) >>= λ s'. build_from rounds s' (parent s' h)

  -- `heap_build`
  unfoldable pub build : Heap → Option Heap
  build s =
      if s.size == 0
      then some s
      else (s.heap_arr (s.size - 1) >>= λ h. build_from (s.size + 1) s (some h))

  -- `heap_delete`
  unfoldable pub delete : Heap → ℕ → Option Heap
  delete s h = s.heap_arr (sub32 s.size 1) >>= λ last.
      (let s1 = swap s h last in
        let s2 = record s1 {
          heap_arr = update s1.heap_arr (s1.index h) none;
          size = sub32 s1.size 1;
        } in
        if less s2.key last h
        then decrease_key s2 last (s2.key last)
        else heapify (s2.size + 1) s2 (s2.index last))

  -- The removal in `heap_min_pop`.
  unfoldable pub pop_of : Heap → Option ℕ → Option (Option ℕ × Heap)
  pop_of s none = some (none, s)
  pop_of s (some h) = delete s h >>= λ s'. some (some h, s')

  -- `heap_min_pop`
  unfoldable pub min_pop : Heap → Option (Option ℕ × Heap)
  min_pop s = pop_of s (min s)
