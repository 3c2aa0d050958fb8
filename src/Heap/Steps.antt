-- ===== src/Heap/Steps.antt =====
-- src/include/tools/heap.h: `heap_insert`, the heads at their places, and the least head.
use fomo.Base.{
  ℕ, zero, suc, ◌+◌, ◌<◌, ◌≡◌, refl, ap, sym, ◌∙◌, Bool, true, false, some, leb, ◌==◌, ◌||◌, update,
  update_self, if◌then◌else◌, Bool-cases, inl, inr, arith, ==_refl, add32,
}
use fomo.Heap.{Heap, in_heap, full, insert, decrease_key, move_up, min, default_less}
use fomo.Heap.Valid.{head, above, IsPlaced, IsCompare, IsHeap}
use fomo.Heap.Up.{IsUpHeap, move_up-Repaired}

-- `heap_default_compare` is such a test.
pub default_less-IsCompare : IsCompare default_less
unfolding default_less
default_less-IsCompare = record {
  order = λ key. record { asym = λ a b h. ground arith; trans = λ a b c h k. ground arith };
  local = λ key key' a b h k. ground arith;
}

-- A head of the heap stands at its index.
pub head-index :
    (s : Heap) (h : ℕ)
    → in_heap s h ≡ true
    → (s.index h < s.size) × (s.heap_arr (s.index h) ≡ some h) × (head s (s.index h) ≡ h)
unfolding in_heap
head-index s h i = ground arith

pub in_heap-head : (s : Heap) (i : ℕ) → IsPlaced s → i < s.size → in_heap s (head s i) ≡ true
unfolding in_heap
in_heap-head s i v inside =
    ground (arith, v.indexed i inside, v.filled i inside, ==_refl (head s i))

module _ (less : (ℕ → ℕ) → ℕ → ℕ → Bool) (c : IsCompare less) where
  first_least :
      (n : ℕ) (s : Heap) (i : ℕ)
      → IsHeap less s
      → i < n
      → i < s.size
      → less s.key (head s i) (head s 0) ≡ false
  first_least zero s i v below inside = absurd (omega arith)
  first_least (suc n) s i v below inside =
      let o = c.order s.key in
      elim (Bool-cases (i == 0)) [
        | inl first ↦ ground (arith, o.asym (head s 0) (head s 0))
        | inr later ↦
            let up = first_least n s (above i) v (ground arith) (ground arith) in
            o.trans (head s i) (head s (above i)) (head s 0) (v.ordered i (ground arith) inside) up
      ]

  -- In a heap in order `heap_min` is a head of it, and no head is less; in an empty one it is none.
  pub min_least :
      (s : Heap) (h : ℕ)
      → IsHeap less s
      → in_heap s h ≡ true
      → (m : ℕ) × (min s ≡ some m) × (in_heap s m ≡ true) × (less s.key h m ≡ false)
  unfolding min
  min_least s h v i =
      let (inside, there, at) = head-index s h i in
      let some_in : 0 < s.size = omega arith in
      (
        head s 0,
        ground (arith, v.placed.filled 0 some_in),
        in_heap-head s 0 v.placed some_in,
        ap (λ x. less s.key x (head s 0)) (sym at)
            ∙ first_least (suc (s.index h)) s (s.index h) v (omega arith) inside,
      )

  -- The heap with a new head at its end.
  appended : Heap → ℕ → ℕ → Heap
  appended s h key = record s {
    size = s.size + 1;
    key = update (update s.key h key) h key;
    index = update s.index h s.size;
    heap_arr = update s.heap_arr s.size (some h);
  }

  module _ (s : Heap) (h key : ℕ) (v : IsHeap less s) (room : s.size < s.capacity)
      (new : in_heap s h ≡ false) where
    head-appended : (i : ℕ) → head (appended s h key) i ≡ (if i == s.size then h else head s i)
    unfolding appended
    head-appended i = ground arith

    head_other : (i : ℕ) → i < s.size → (head s i == h) ≡ false
    unfolding in_heap
    head_other i inside =
        ground (arith, v.placed.indexed i inside, v.placed.filled i inside, ==_refl h)

    key-appended : (a : ℕ) → (appended s h key).key a ≡ (if a == h then key else s.key a)
    unfolding appended
    key-appended a = ground arith

    appended-IsUpHeap : IsUpHeap less (appended s h key) s.size
    unfolding appended
    appended-IsUpHeap = record {
      placed = record {
        filled = λ i inside. ground (arith, v.placed.filled i);
        indexed = λ i inside.
            ground (arith, head-appended i, v.placed.indexed i, head_other i, ==_refl h);
        fits = omega arith;
        word = v.placed.word;
      };
      inside = omega arith;
      edges = λ i pos inside other. ground (
        arith,
        head-appended i,
        head-appended (above i),
        v.ordered i pos,
        head_other i,
        head_other (above i),
        key-appended (head s i),
        key-appended (head s (above i)),
        c.local (appended s h key).key s.key (head s i) (head s (above i)),
      );
      grand = λ i p q inside is. absurd (omega arith);
    }

    in_heap-appended : (a : ℕ) → in_heap (appended s h key) a ≡ (in_heap s a || (a == h))
    unfolding appended in_heap
    in_heap-appended a = ground (arith, ==_refl h)

    size-appended : (appended s h key).size ≡ s.size + 1
    unfolding appended
    size-appended = refl

    insert_calls : insert less s h key ≡ move_up less (s.size + 1) (appended s h key) h
    unfolding insert full decrease_key appended
    insert_calls =
        let no_wrap : add32 s.size 1 ≡ s.size + 1 = omega (arith, v.placed.word) in
        let not_full : (s.size == s.capacity) ≡ false = ground arith in
        let same : leb key key ≡ true = ground arith in
        let at : update s.index h s.size h ≡ s.size = update_self s.index h s.size in
        let its : update s.key h key h ≡ key = update_self s.key h key in
        rw (not_full, no_wrap, its, same, at) refl

    -- In a heap in order with room, for a head that is not in it and a test that orders the heads:
    -- the loop of `heap_insert` ends, the heap stays in order, and the head is in it under its
    -- key, the others as they were.
    pub insert-IsHeap :
        (s' : Heap) × (insert less s h key ≡ some s')
        × IsHeap less s'
        × (s'.size ≡ s.size + 1)
        × ((a : ℕ) → in_heap s' a ≡ (in_heap s a || (a == h)))
        × ((a : ℕ) → s'.key a ≡ (if a == h then key else s.key a))
    insert-IsHeap =
        let (s', ran, r) =
          move_up-Repaired less c.order (s.size + 1) (appended s h key) s.size h appended-IsUpHeap
            (sym (ground (arith, head-appended s.size, ==_refl s.size))) (omega arith) in
        (
          s',
          insert_calls ∙ ran,
          r.heap,
          r.same_size ∙ size-appended,
          (λ a. r.same_members a ∙ in_heap-appended a),
          (λ a. r.same_key a ∙ key-appended a),
        )
