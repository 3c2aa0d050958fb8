-- ===== src/Heap/Up.antt =====
-- src/include/tools/heap.h: the loop of `heap_decrease_key`, and the order upwards.
use fomo.Base.{
  ℕ, zero, suc, ◌<◌, ◌≡◌, refl, ap, sym, ◌∙◌, Bool, true, false, some, ltb, ◌==◌, Bool-cases, inl,
  inr, arith, ==_refl,
}
use fomo.Heap.{Heap, swap, in_heap, parent, move_up}
use fomo.Heap.Valid.{head, above, IsPlaced, IsOrder, IsHeap, head-swap, swap-IsPlaced, in_heap-swap}

-- A heap in order but for one head, that may be less than the one above it.
pub record IsUpHeap (less : (ℕ → ℕ) → ℕ → ℕ → Bool) (s : Heap) (i : ℕ) : Type 0 where
  pub placed : IsPlaced s
  pub inside : i < s.size
  pub edges :
      (c : ℕ)
      → 0 < c
      → c < s.size
      → (c == i) ≡ false
      → less s.key (head s c) (head s (above c)) ≡ false
  pub grand :
      (c : ℕ)
      → 0 < i
      → 0 < c
      → c < s.size
      → above c ≡ i
      → less s.key (head s c) (head s (above i)) ≡ false

-- What a repair of the order leaves: the heads, the keys and the size as they were.
pub record Repaired (less : (ℕ → ℕ) → ℕ → ℕ → Bool) (s s' : Heap) : Type 0 where
  pub heap : IsHeap less s'
  pub same_size : s'.size ≡ s.size
  pub same_capacity : s'.capacity ≡ s.capacity
  pub same_key : (h : ℕ) → s'.key h ≡ s.key h
  pub same_members : (h : ℕ) → in_heap s' h ≡ in_heap s h

module _ (less : (ℕ → ℕ) → ℕ → ℕ → Bool) (order : (key : ℕ → ℕ) → IsOrder (less key)) where
  -- A round: the head goes up one place.
  up_step :
      (s : Heap) (i : ℕ)
      → IsUpHeap less s i
      → 0 < i
      → less s.key (head s i) (head s (above i)) ≡ true
      → IsUpHeap less (swap s (head s i) (head s (above i))) (above i)
  unfolding swap
  up_step s i v pos smaller =
      let j = above i in
      let in_j : j < s.size = omega (arith, v.inside) in
      let o = order s.key in
      let s' = swap s (head s i) (head s j) in
      record {
        placed = swap-IsPlaced s v.placed i j v.inside in_j;
        inside = in_j;
        edges = λ c p inside other. ground (
          arith,
          head-swap s v.placed i j v.inside in_j c,
          head-swap s v.placed i j v.inside in_j (above c),
          v.edges c p inside,
          v.grand c pos p inside,
          o.asym (head s i) (head s j) smaller,
          o.trans (head s c) (head s j) (head s i),
        );
        grand = λ c p q inside is. ground (
          arith,
          head-swap s v.placed i j v.inside in_j c,
          head-swap s v.placed i j v.inside in_j (above j),
          v.edges c q inside,
          v.edges j p in_j,
          o.trans (head s c) (head s j) (head s (above j)),
        );
      }

  -- The cases of a round.
  move_up_top :
      (rounds : ℕ) (s : Heap) (h : ℕ) → s.index h ≡ 0 → move_up less (suc rounds) s h ≡ some s
  unfolding move_up
  move_up_top rounds s h top = rw top refl

  move_up_stop :
      (rounds : ℕ) (s : Heap) (h p : ℕ)
      → parent s h ≡ some p
      → less s.key h p ≡ false
      → move_up less (suc rounds) s h ≡ some s
  unfolding move_up
  move_up_stop rounds s h p over fine = elim (Bool-cases (ltb 0 (s.index h))) [
    | inl below ↦ rw (below, over, fine) refl
    | inr top ↦ rw top refl
  ]

  move_up_round :
      (rounds : ℕ) (s : Heap) (h p : ℕ)
      → ltb 0 (s.index h) ≡ true
      → parent s h ≡ some p
      → less s.key h p ≡ true
      → move_up less (suc rounds) s h ≡ move_up less rounds (swap s h p) h
  unfolding move_up
  move_up_round rounds s h p below over smaller = rw (below, over, smaller, move_up) refl

  pub parent-head :
      (s : Heap) (i : ℕ)
      → IsPlaced s
      → 0 < i
      → i < s.size
      → parent s (head s i) ≡ some (head s (above i))
  unfolding parent
  parent-head s i v pos inside = ground (arith, v.indexed i inside, v.filled (above i))

  -- In order without exception.
  up_done :
      (s : Heap) (i : ℕ)
      → IsUpHeap less s i
      → (0 < i → less s.key (head s i) (head s (above i)) ≡ false)
      → Repaired less s s
  up_done s i v top = record {
    heap = record {
      placed = v.placed;
      ordered = λ c pos inside. ground (arith, v.edges c pos inside, top);
    };
    same_size = refl;
    same_capacity = refl;
    same_key = λ h. refl;
    same_members = λ h. refl;
  }

  pub swapped-Repaired :
      (s s' : Heap) (i j : ℕ)
      → IsPlaced s
      → i < s.size
      → j < s.size
      → Repaired less (swap s (head s i) (head s j)) s'
      → Repaired less s s'
  unfolding swap
  swapped-Repaired s s' i j v in_i in_j r = record {
    heap = r.heap;
    same_size = r.same_size;
    same_capacity = r.same_capacity;
    same_key = r.same_key;
    same_members = λ h. r.same_members h ∙ in_heap-swap s v i j in_i in_j h;
  }

  -- With more rounds than the index of the head the loop ends, and the heap is in order.
  pub move_up-Repaired :
      (rounds : ℕ) (s : Heap) (i h : ℕ)
      → IsUpHeap less s i
      → h ≡ head s i
      → i < rounds
      → (s' : Heap) × (move_up less rounds s h ≡ some s') × Repaired less s s'
  move_up-Repaired zero s i h v is enough = absurd (omega arith)
  move_up-Repaired (suc rounds) s i h v is enough =
      let place : s.index h ≡ i = ap s.index is ∙ v.placed.indexed i v.inside in
      let j = above i in
      elim (Bool-cases (ltb 0 i)) [
        | inr top ↦
            (s, move_up_top rounds s h (ground arith), up_done s i v (λ pos. absurd (ground arith)))
        | inl below ↦
            let pos : 0 < i = ground arith in
            let in_j : j < s.size = omega (arith, v.inside) in
            let over : parent s h ≡ some (head s j) =
              ap (parent s) is ∙ parent-head s i v.placed pos v.inside in
            elim (Bool-cases (less s.key h (head s j))) [
              | inr fine ↦ (
                s,
                move_up_stop rounds s h (head s j) over fine,
                up_done s i v (λ _. ap (λ x. less s.key x (head s j)) (sym is) ∙ fine),
              )
              | inl smaller ↦
                  let small : less s.key (head s i) (head s j) ≡ true =
                    ap (λ x. less s.key x (head s j)) (sym is) ∙ smaller in
                  let s1 = swap s (head s i) (head s j) in
                  let (s', ran, r) =
                    move_up-Repaired rounds s1 j h (up_step s i v pos small)
                      (is
                        ∙ sym (ground (arith, head-swap s v.placed i j v.inside in_j j, ==_refl j)))
                      (omega arith) in
                  (
                    s',
                    move_up_round rounds s h (head s j) (ground arith) over smaller
                        ∙ ap (λ x. move_up less rounds (swap s x (head s j)) h) is
                        ∙ ran,
                    swapped-Repaired s s' i j v.placed v.inside in_j r,
                  )
            ]
      ]
