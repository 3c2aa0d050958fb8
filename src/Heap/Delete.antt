-- ===== src/Heap/Delete.antt =====
-- src/include/tools/heap.h: `heap_delete` and `heap_min_pop`.
use fomo.Base.{
  ℕ, ◌+◌, ◌-◌, ◌<◌, ◌≡◌, refl, ap, sym, ◌∙◌, Bool, true, false, none, some, leb, ◌==◌, ◌&&◌, not,
  update, if◌then◌else◌, Bool-cases, inl, inr, arith, ==_refl, sub32,
}
use fomo.Heap.{Heap, swap, in_heap, decrease_key, move_up, delete, heapify, min, min_pop, pop_of}
use fomo.Heap.Valid.{head, above, IsPlaced, IsCompare, IsHeap, head-swap, index-swap, swap-IsPlaced}
use fomo.Heap.Up.{IsUpHeap, move_up-Repaired}
use fomo.Heap.Down.{IsDownHeap, heapify-Repaired}
use fomo.Heap.Steps.{head-index, min_least}

-- The heap after the last head has taken the place of the head that goes.
closed : Heap → ℕ → Heap
closed s i =
    let s1 = swap s (head s i) (head s (s.size - 1)) in
    record s1 { heap_arr = update s1.heap_arr (s.size - 1) none; size = s.size - 1 }

module _ (less : (ℕ → ℕ) → ℕ → ℕ → Bool) (c : IsCompare less) (s : Heap) (i : ℕ) (v : IsHeap less s)
    (inside : i < s.size) where
  last_in : s.size - 1 < s.size
  last_in = omega arith

  head-closed :
      (k : ℕ)
      → k < s.size - 1
      → head (closed s i) k ≡ (if k == i then head s (s.size - 1) else head s k)
  unfolding closed
  head-closed k below = ground (arith, head-swap s v.placed i (s.size - 1) inside last_in k)

  closed-IsPlaced : IsPlaced (closed s i)
  unfolding closed swap
  closed-IsPlaced =
      let w = swap-IsPlaced s v.placed i (s.size - 1) inside last_in in
      record {
        filled = λ k below. ground (arith, w.filled k);
        indexed = λ k below. ground (arith, w.indexed k, w.filled k);
        fits = omega (arith, v.placed.fits);
        word = v.placed.word;
      }

  in_heap-closed : (a : ℕ) → in_heap (closed s i) a ≡ (in_heap s a && not (a == head s i))
  unfolding closed in_heap swap
  in_heap-closed a = ground (
    arith,
    v.placed.indexed i inside,
    v.placed.indexed (s.size - 1) last_in,
    v.placed.filled i inside,
    v.placed.filled (s.size - 1) last_in,
    v.placed.filled (s.index a),
    v.placed.indexed (s.index a),
    ==_refl a,
  )

  key-closed : (a : ℕ) → (closed s i).key a ≡ s.key a
  unfolding closed swap
  key-closed a = refl

  abbrev last : ℕ
  last = head s (s.size - 1)

  -- The same heap, as `heap_decrease_key` leaves the keys.
  rekeyed : Heap
  rekeyed = record (closed s i) { key = update s.key last (s.key last) }

  key-rekeyed : (a : ℕ) → rekeyed.key a ≡ s.key a
  unfolding rekeyed
  key-rekeyed a = ground arith

  less-rekeyed : (a b : ℕ) → less rekeyed.key a b ≡ less s.key a b
  less-rekeyed a b = c.local rekeyed.key s.key a b (key-rekeyed a) (key-rekeyed b)

  less-closed : (a b : ℕ) → less (closed s i).key a b ≡ less s.key a b
  less-closed a b = c.local (closed s i).key s.key a b (key-closed a) (key-closed b)

  size-closed : (closed s i).size ≡ s.size - 1
  unfolding closed swap
  size-closed = refl

  edge_cases : (k : ℕ) → 0 < k → k < s.size - 1 → less s.key (head s k) (head s (above k)) ≡ false
  edge_cases k pos below = v.ordered k pos (omega arith)

  rekeyed-IsUpHeap : i < s.size - 1 → less s.key last (head s i) ≡ true → IsUpHeap less rekeyed i
  unfolding rekeyed
  rekeyed-IsUpHeap early smaller =
      let o = c.order s.key in
      record {
        placed = record {
          filled = closed-IsPlaced.filled;
          indexed = closed-IsPlaced.indexed;
          fits = closed-IsPlaced.fits;
          word = closed-IsPlaced.word;
        };
        inside = ground (arith, size-closed);
        edges = λ k pos below other. ground (
          arith,
          size-closed,
          head-closed k,
          head-closed (above k),
          less-rekeyed (head s k) (head s (above k)),
          less-rekeyed (head s k) last,
          edge_cases k pos,
          o.asym last (head s i) smaller,
          o.trans (head s k) (head s i) last,
        );
        grand = λ k p q below is. ground (
          arith,
          size-closed,
          head-closed k,
          head-closed (above i),
          less-rekeyed (head s k) (head s (above i)),
          edge_cases k q,
          edge_cases i p early,
          o.trans (head s k) (head s i) (head s (above i)),
        );
      }

  closed-IsDownHeap : less s.key last (head s i) ≡ false → IsDownHeap less (closed s i) i
  closed-IsDownHeap larger =
      let o = c.order s.key in
      record {
        placed = closed-IsPlaced;
        edges = λ k pos below other. ground (
          arith,
          size-closed,
          less-closed (head s k) (head s (above k)),
          less-closed last (head s (above k)),
          head-closed k,
          head-closed (above k),
          edge_cases k pos,
          edge_cases i,
          o.trans last (head s i) (head s (above i)),
        );
        grand = λ k p q below is. ground (
          arith,
          size-closed,
          less-closed (head s k) (head s (above i)),
          head-closed k,
          head-closed (above i),
          edge_cases k q,
          v.ordered i p inside,
          o.trans (head s k) (head s i) (head s (above i)),
        );
      }

  index-last : (closed s i).index last ≡ i
  unfolding closed
  index-last =
      ground (arith, index-swap s v.placed i (s.size - 1) inside last_in last, ==_refl last)

  index-gone : (swap s (head s i) last).index (head s i) ≡ s.size - 1
  index-gone = ground (
    arith,
    index-swap s v.placed i (s.size - 1) inside last_in (head s i),
    v.placed.indexed i inside,
    v.placed.indexed (s.size - 1) last_in,
    ==_refl (head s i),
  )

  size-swap : (t : Heap) (a b : ℕ) → (swap t a b).size ≡ t.size
  unfolding swap
  size-swap t a b = refl

  keys_shut :
      (if less (swap s (head s i) last).key last (head s i)
        then decrease_key less (closed s i) last ((swap s (head s i) last).key last)
        else heapify less (s.size - 1 + 1) (closed s i) ((closed s i).index last))
      ≡ (if less s.key last (head s i)
          then decrease_key less (closed s i) last (s.key last)
          else heapify less (s.size - 1 + 1) (closed s i) ((closed s i).index last))
  unfolding swap
  keys_shut = refl

  -- The last head is less than the head that goes, so it is another one.
  earlier : less s.key last (head s i) ≡ true → i < s.size - 1
  earlier smaller = elim (Bool-cases (i == s.size - 1)) [
    | inl same ↦ absurd (ground (arith, (c.order s.key).asym last last))
    | inr other ↦ ground (arith, inside)
  ]

  head-rekeyed : i < s.size - 1 → head rekeyed i ≡ last
  unfolding rekeyed
  head-rekeyed early = ground (arith, head-closed i early, ==_refl i)

  size-rekeyed : rekeyed.size ≡ s.size - 1
  unfolding rekeyed
  size-rekeyed = size-closed

  in_heap-rekeyed : (a : ℕ) → in_heap rekeyed a ≡ in_heap (closed s i) a
  unfolding rekeyed in_heap
  in_heap-rekeyed a = refl

  rekeyed_shut : record (closed s i) { key = update (closed s i).key last (s.key last) } ≡ rekeyed
  unfolding closed swap rekeyed
  rekeyed_shut = refl

  decrease_calls :
      decrease_key less (closed s i) last (s.key last) ≡ move_up less (i + 1) rekeyed last
  unfolding decrease_key
  decrease_calls =
      let same : leb (s.key last) ((closed s i).key last) ≡ true =
        ground (arith, key-closed last) in
      rw (same, index-last) (ap (λ t. move_up less (i + 1) t last) rekeyed_shut)

  -- What `heap_delete` calls.
  delete_calls : delete less s (head s i) ≡ (
      if less s.key last (head s i)
      then decrease_key less (closed s i) last (s.key last)
      else heapify less (s.size - 1 + 1) (closed s i) ((closed s i).index last))
  unfolding delete closed
  delete_calls =
      let at : sub32 s.size 1 ≡ s.size - 1 = omega (arith, v.placed.word, v.placed.fits) in
      let same : sub32 (swap s (head s i) last).size 1 ≡ s.size - 1 =
        ap (λ n. sub32 n 1) (size-swap s (head s i) last) ∙ at in
      rw (at, v.placed.filled (s.size - 1) last_in, same, index-gone) keys_shut

  -- In the order of their keys the heads of a heap stay a heap when one goes: `heap_delete` ends,
  -- the heap is in order, that head has left it and no other, and no key has changed.
  delete-IsHeap :
      (s' : Heap) × (delete less s (head s i) ≡ some s')
      × IsHeap less s'
      × (s'.size ≡ s.size - 1)
      × ((a : ℕ) → in_heap s' a ≡ (in_heap s a && not (a == head s i)))
      × ((a : ℕ) → s'.key a ≡ s.key a)
  delete-IsHeap = elim (Bool-cases (less s.key last (head s i))) [
    | inl smaller ↦
        let early : i < s.size - 1 = earlier smaller in
        let (s', ran, r) =
          move_up-Repaired less c.order (i + 1) rekeyed i last (rekeyed-IsUpHeap early smaller)
            (sym (head-rekeyed early)) (omega arith) in
        (
          s',
          delete_calls ∙ rw smaller decrease_calls ∙ ran,
          r.heap,
          r.same_size ∙ size-rekeyed,
          (λ a. r.same_members a ∙ in_heap-rekeyed a ∙ in_heap-closed a),
          (λ a. r.same_key a ∙ key-rekeyed a),
        )
    | inr larger ↦
        let (s', ran, r) =
          heapify-Repaired less c.order (s.size - 1 + 1) (closed s i) i (closed-IsDownHeap larger)
            (omega arith) (ground (arith, size-closed)) in
        (
          s',
          delete_calls
              ∙ rw larger (ap (heapify less (s.size - 1 + 1) (closed s i)) index-last)
              ∙ ran,
          r.heap,
          r.same_size ∙ size-closed,
          (λ a. r.same_members a ∙ in_heap-closed a),
          (λ a. r.same_key a ∙ key-closed a),
        )
  ]

-- In a heap in order, for a head that is in it and a test that orders the heads: the loops of
-- `heap_delete` end, the heap stays in order, that head has left it and no other, and no key has
-- changed.
pub heap_delete-IsHeap :
    (less : (ℕ → ℕ) → ℕ → ℕ → Bool) (c : IsCompare less) (s : Heap) (h : ℕ)
    → IsHeap less s
    → in_heap s h ≡ true
    → (s' : Heap) × (delete less s h ≡ some s')
      × IsHeap less s'
      × (s'.size ≡ s.size - 1)
      × ((a : ℕ) → in_heap s' a ≡ (in_heap s a && not (a == h)))
      × ((a : ℕ) → s'.key a ≡ s.key a)
heap_delete-IsHeap less c s h v there =
    let (inside, _, at) = head-index s h there in
    let (s', ran, w, size, members, keys) = delete-IsHeap less c s (s.index h) v inside in
    (
      s',
      ap (delete less s) (sym at) ∙ ran,
      w,
      size,
      (λ a. members a ∙ ap (λ x. in_heap s a && not (a == x)) at),
      keys,
    )

min_pop_calls :
    (less : (ℕ → ℕ) → ℕ → ℕ → Bool) (s s' : Heap) (m : ℕ)
    → min s ≡ some m
    → delete less s m ≡ some s'
    → min_pop less s ≡ some (some m, s')
unfolding min_pop pop_of
min_pop_calls less s s' m is ran = ap (pop_of less s) is ∙ rw ran refl

-- In a heap in order with some head in it, for a test that orders the heads: `heap_min_pop` ends
-- and returns a head than which none is less; the heap stays in order, and that head has left it
-- and no other.
pub min_pop-IsHeap :
    (less : (ℕ → ℕ) → ℕ → ℕ → Bool) (c : IsCompare less) (s : Heap) (a : ℕ)
    → IsHeap less s
    → in_heap s a ≡ true
    → (m : ℕ) × (s' : Heap) × (min_pop less s ≡ some (some m, s'))
      × (in_heap s m ≡ true)
      × (less s.key a m ≡ false)
      × IsHeap less s'
      × ((b : ℕ) → in_heap s' b ≡ (in_heap s b && not (b == m)))
min_pop-IsHeap less c s a v there =
    let (m, is, m_in, no_less) = min_least less c s a v there in
    let (s', ran, w, _, members, _) = heap_delete-IsHeap less c s m v m_in in
    (m, s', min_pop_calls less s s' m is ran, m_in, no_less, w, members)
