-- ===== src/Heap/Down.antt =====
-- src/include/tools/heap.h: `heapify`, and the order downwards.
use fomo.Base.{
  ℕ, zero, suc, ◌+◌, ◌*◌, ◌≤◌, ◌<◌, ◌≡◌, refl, ap, ◌∙◌, Bool, true, false, none, some, ltb, leb,
  ◌==◌, ◌&&◌, ◌||◌, if◌then◌else◌, Bool-cases, inl, inr, arith, ==_refl,
}
use fomo.Heap.{Heap, swap, left, right, least, heapify}
use fomo.Heap.Valid.{head, above, IsPlaced, IsOrder, head-swap, index-swap, swap-IsPlaced}
use fomo.Heap.Up.{Repaired, swapped-Repaired}

-- A heap in order but for one head, that the heads below it may be less than.
pub record IsDownHeap (less : (ℕ → ℕ) → ℕ → ℕ → Bool) (s : Heap) (i : ℕ) : Type 0 where
  pub placed : IsPlaced s
  pub edges :
      (c : ℕ)
      → 0 < c
      → c < s.size
      → (above c == i) ≡ false
      → less s.key (head s c) (head s (above c)) ≡ false
  pub grand :
      (c : ℕ)
      → 0 < i
      → 0 < c
      → c < s.size
      → above c ≡ i
      → less s.key (head s c) (head s (above i)) ≡ false

left-head :
    (s : Heap) (i : ℕ)
    → IsPlaced s
    → i < s.size
    → left s (head s i) ≡ (if ltb (2 * i + 1) s.size then some (head s (2 * i + 1)) else none)
unfolding left
left-head s i v inside = ground (arith, v.indexed i inside, v.fits, v.word, v.filled (2 * i + 1))

right-head :
    (s : Heap) (i : ℕ)
    → IsPlaced s
    → i < s.size
    → right s (head s i) ≡ (if ltb (2 * i + 2) s.size then some (head s (2 * i + 2)) else none)
unfolding right
right-head s i v inside = ground (arith, v.indexed i inside, v.fits, v.word, v.filled (2 * i + 2))

-- The least of a head and those below it: its place, and what it is less than.
record Least (less : (ℕ → ℕ) → ℕ → ℕ → Bool) (s : Heap) (i m : ℕ) : Type 0 where
  place : ℕ
  is : m ≡ head s place
  below : place < s.size
  here_or_child :
      ((place == i)
        || (ltb i place && ((above place == i) && less s.key (head s place) (head s i))))
      ≡ true
  no_less :
      (c : ℕ) → 0 < c → c < s.size → above c ≡ i → less s.key (head s c) (head s place) ≡ false

module _ (less : (ℕ → ℕ) → ℕ → ℕ → Bool) (order : (key : ℕ → ℕ) → IsOrder (less key)) where
  least-Least :
      (s : Heap) (i : ℕ)
      → IsPlaced s
      → i < s.size
      → Least less s i
          (least less s (least less s (head s i) (left s (head s i))) (right s (head s i)))
  unfolding least
  least-Least s i v inside =
      let o = order s.key in
      let h = head s i in
      let l = head s (2 * i + 1) in
      let r = head s (2 * i + 2) in
      let lt = less s.key in
      let at_left = left-head s i v inside in
      let at_right = right-head s i v inside in
      elim (Bool-cases (ltb (2 * i + 1) s.size)) [
        | inr none_left ↦ record {
          place = i;
          is = ground (arith, at_left, at_right);
          below = inside;
          here_or_child = ground (arith, ==_refl i);
          no_less = λ c pos in_c child. absurd (ground arith);
        }
        | inl some_left ↦ elim (Bool-cases (lt l h)) [
          | inl left_less ↦ elim (Bool-cases (ltb (2 * i + 2) s.size && lt r l)) [
            | inl right_less ↦ record {
              place = 2 * i + 2;
              is = ground (arith, at_left, at_right);
              below = ground arith;
              here_or_child = ground (arith, o.asym l h, o.asym r l, o.trans r h l);
              no_less = λ c pos in_c child. ground (arith, o.asym r l, o.asym r r);
            }
            | inr right_more ↦ record {
              place = 2 * i + 1;
              is = ground (arith, at_left, at_right);
              below = ground arith;
              here_or_child = ground arith;
              no_less = λ c pos in_c child. ground (arith, o.asym l l);
            }
          ]
          | inr left_more ↦ elim (Bool-cases (ltb (2 * i + 2) s.size && lt r h)) [
            | inl right_less ↦ record {
              place = 2 * i + 2;
              is = ground (arith, at_left, at_right);
              below = ground arith;
              here_or_child = ground arith;
              no_less = λ c pos in_c child. ground (arith, o.asym r h, o.trans l h r, o.asym r r);
            }
            | inr right_more ↦ record {
              place = i;
              is = ground (arith, at_left, at_right);
              below = inside;
              here_or_child = ground (arith, ==_refl i);
              no_less = λ c pos in_c child. ground arith;
            }
          ]
        ]
      ]

  -- A call: the head goes down one place, to where the least head was.
  down_step :
      (s : Heap) (i k : ℕ)
      → IsDownHeap less s i
      → i < s.size
      → k < s.size
      → i < k
      → above k ≡ i
      → less s.key (head s k) (head s i) ≡ true
      → ((c : ℕ) → 0 < c → c < s.size → above c ≡ i → less s.key (head s c) (head s k) ≡ false)
      → IsDownHeap less (swap s (head s i) (head s k)) k
  unfolding swap
  down_step s i k v in_i in_k down child smaller no_less =
      let o = order s.key in
      record {
        placed = swap-IsPlaced s v.placed i k in_i in_k;
        edges = λ c pos inside other. ground (
          arith,
          head-swap s v.placed i k in_i in_k c,
          head-swap s v.placed i k in_i in_k (above c),
          v.edges c pos inside,
          v.grand k,
          no_less c pos inside,
          o.asym (head s k) (head s i) smaller,
        );
        grand = λ c p pos inside is. ground (
          arith,
          head-swap s v.placed i k in_i in_k c,
          head-swap s v.placed i k in_i in_k (above k),
          v.edges c pos inside,
        );
      }

  -- The cases of a call.
  heapify_out : (calls : ℕ) (s : Heap) (i : ℕ) → s.size ≤ i → heapify less (suc calls) s i ≡ some s
  unfolding heapify
  heapify_out calls s i out = elim (Bool-cases (leb s.size i)) [
    | inl is ↦ rw is refl
    | inr not ↦ absurd (ground arith)
  ]

  abbrev least_at : Heap → ℕ → ℕ
  least_at s h = least less s (least less s h (left s h)) (right s h)

  heapify_stop :
      (calls : ℕ) (s : Heap) (i h : ℕ)
      → leb s.size i ≡ false
      → s.heap_arr i ≡ some h
      → (least_at s h == h) ≡ true
      → heapify less (suc calls) s i ≡ some s
  unfolding heapify
  heapify_stop calls s i h inside there stop = rw (inside, there, stop) refl

  heapify_call :
      (calls : ℕ) (s : Heap) (i h m : ℕ)
      → leb s.size i ≡ false
      → s.heap_arr i ≡ some h
      → least_at s h ≡ m
      → (m == h) ≡ false
      → heapify less (suc calls) s i ≡ heapify less calls (swap s h m) ((swap s h m).index h)
  unfolding heapify
  heapify_call calls s i h m inside there is other = rw (inside, there, is, other, heapify) refl

  down_done :
      (s : Heap) (i : ℕ)
      → IsDownHeap less s i
      → ((c : ℕ) → 0 < c → c < s.size → above c ≡ i → less s.key (head s c) (head s i) ≡ false)
      → Repaired less s s
  down_done s i v fine = record {
    heap = record {
      placed = v.placed;
      ordered = λ c pos inside. ground (arith, v.edges c pos inside, fine c pos inside);
    };
    same_size = refl;
    same_capacity = refl;
    same_key = λ h. refl;
    same_members = λ h. refl;
  }

  other_head :
      (s : Heap) (i k : ℕ)
      → IsPlaced s
      → i < s.size
      → k < s.size
      → i < k
      → (head s k == head s i) ≡ false
  other_head s i k v in_i in_k down = ground (arith, v.indexed i in_i, v.indexed k in_k)

  moved_index :
      (s : Heap) (i k : ℕ)
      → IsPlaced s
      → i < s.size
      → k < s.size
      → i < k
      → (swap s (head s i) (head s k)).index (head s i) ≡ k
  moved_index s i k v in_i in_k down = ground (
    arith,
    index-swap s v i k in_i in_k (head s i),
    other_head s i k v in_i in_k down,
    ==_refl (head s i),
  )

  size-swap : (s : Heap) (a b : ℕ) → (swap s a b).size ≡ s.size
  unfolding swap
  size-swap s a b = refl

  -- A call at a place of the heap, given the one after it.
  heapify-at :
      (calls : ℕ) (s : Heap) (i : ℕ)
      → IsDownHeap less s i
      → s.size < suc calls + i
      → leb s.size i ≡ false
      → i < s.size
      → s.heap_arr i ≡ some (head s i)
      → Least less s i (least_at s (head s i))
      → ((k : ℕ)
          → IsDownHeap less (swap s (head s i) (head s k)) k
          → (0 < calls) × ((swap s (head s i) (head s k)).size < calls + k)
          → (s' : Heap) × (heapify less calls (swap s (head s i) (head s k)) k ≡ some s')
            × Repaired less (swap s (head s i) (head s k)) s')
      → (s' : Heap) × (heapify less (suc calls) s i ≡ some s') × Repaired less s s'
  heapify-at calls s i v enough inside in_i there b next =
      let k = b.place in
      let h = head s i in
      let one = b.here_or_child in
      elim (Bool-cases (k == i)) [
        | inl here ↦ (
          s,
          heapify_stop calls s i h inside there (ground (arith, b.is, ==_refl h)),
          down_done s i v (λ c pos in_c child. ground (arith, b.no_less c pos in_c child)),
        )
        | inr child ↦
            let down : i < k = ground arith in
            let w = down_step s i k v in_i b.below down (ground arith) (ground arith) b.no_less in
            let (s', ran, r) =
              next k w
                (ground (arith, b.below), ground (arith, size-swap s h (head s k), b.below)) in
            (
              s',
              heapify_call calls s i h (head s k) inside there b.is
                    (other_head s i k v.placed in_i b.below down)
                  ∙ ap (heapify less calls (swap s h (head s k)))
                      (moved_index s i k v.placed in_i b.below down)
                  ∙ ran,
              swapped-Repaired less order s s' i k v.placed in_i b.below r,
            )
      ]

  -- With more calls than there are places from the index on, `heapify` ends, and the heap is in
  -- order.
  pub heapify-Repaired :
      (calls : ℕ) (s : Heap) (i : ℕ)
      → IsDownHeap less s i
      → 0 < calls
      → s.size < calls + i
      → (s' : Heap) × (heapify less calls s i ≡ some s') × Repaired less s s'
  heapify-Repaired zero s i v some_call enough = absurd (omega arith)
  heapify-Repaired (suc calls) s i v some_call enough = elim (Bool-cases (leb s.size i)) [
    | inl out ↦ (
      s,
      heapify_out calls s i (ground arith),
      down_done s i v (λ c pos inside is. absurd (ground arith)),
    )
    | inr inside ↦
        let in_i : i < s.size = ground arith in
        let there = v.placed.filled i in_i in
        let b = least-Least s i v.placed in_i in
        heapify-at calls s i v enough inside in_i there b (λ k w deeper.
          heapify-Repaired calls (swap s (head s i) (head s k)) k w deeper.0 deeper.1)
  ]
