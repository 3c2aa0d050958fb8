-- ===== src/Heap/Valid.antt =====
-- src/include/tools/heap.h: the places of the heads, and the order of the heap.
use fomo.Base.{
  ℕ, ◌+◌, ◌-◌, ◌*◌, ◌/◌, ◌≤◌, ◌<◌, ◌≡◌, Bool, true, false, none, some, ◌==◌, if◌then◌else◌, u32_mod,
  arith, ==_refl,
}
use fomo.Heap.{Heap, swap, in_heap}

-- The head at a place, and the place above a place.
abbrev pub head : Heap → ℕ → ℕ
head s i = elim (s.heap_arr i) [ none ↦ 0 | some h ↦ h ]

abbrev pub above : ℕ → ℕ
above i = (i - 1) / 2

-- Every place below the size holds a head that knows its place, and no index wraps.
pub record IsPlaced (s : Heap) : Type 0 where
  pub filled : (i : ℕ) → i < s.size → s.heap_arr i ≡ some (head s i)
  pub indexed : (i : ℕ) → i < s.size → s.index (head s i) ≡ i
  pub fits : s.size ≤ s.capacity
  pub word : 2 * s.capacity + 2 < u32_mod

-- What the field `compare` must be: a test that orders the heads, where some may be equal.
pub record IsOrder (lt : ℕ → ℕ → Bool) : Type 0 where
  pub asym : (a b : ℕ) → lt a b ≡ true → lt b a ≡ false
  pub trans : (a b c : ℕ) → lt a b ≡ false → lt b c ≡ false → lt a c ≡ false

-- It also reads no other key than the two.
pub record IsCompare (less : (ℕ → ℕ) → ℕ → ℕ → Bool) : Type 0 where
  pub order : (key : ℕ → ℕ) → IsOrder (less key)
  pub local :
      (key key' : ℕ → ℕ) (a b : ℕ) → key a ≡ key' a → key b ≡ key' b → less key a b ≡ less key' a b

-- No head is less than the one above it.
pub record IsHeap (less : (ℕ → ℕ) → ℕ → ℕ → Bool) (s : Heap) : Type 0 where
  pub placed : IsPlaced s
  pub ordered : (i : ℕ) → 0 < i → i < s.size → less s.key (head s i) (head s (above i)) ≡ false

-- A swap of the heads at two places.
module _ (s : Heap) (v : IsPlaced s) (i j : ℕ) (inside_i : i < s.size) (inside_j : j < s.size) where
  pub head-swap :
      (k : ℕ)
      → head (swap s (head s i) (head s j)) k
        ≡ (if k == i then head s j else (if k == j then head s i else head s k))
  unfolding swap
  head-swap k = ground (arith, v.indexed i, v.indexed j)

  pub filled-swap :
      (k : ℕ)
      → k < s.size
      → (swap s (head s i) (head s j)).heap_arr k ≡ some (head (swap s (head s i) (head s j)) k)
  unfolding swap
  filled-swap k inside = ground (arith, v.indexed i, v.indexed j, v.filled k)

  pub index-swap :
      (h : ℕ)
      → (swap s (head s i) (head s j)).index h
        ≡ (if h == head s j then i else (if h == head s i then j else s.index h))
  unfolding swap
  index-swap h = ground (arith, v.indexed i, v.indexed j)

  pub swap-IsPlaced : IsPlaced (swap s (head s i) (head s j))
  unfolding swap
  swap-IsPlaced = record {
    filled = filled-swap;
    indexed = λ k inside. ground (
      arith,
      head-swap k,
      index-swap (head (swap s (head s i) (head s j)) k),
      v.indexed i,
      v.indexed j,
      v.indexed k,
      index-swap (head s k),
    );
    fits = v.fits;
    word = v.word;
  }

  -- It changes no membership.
  pub in_heap-swap : (h : ℕ) → in_heap (swap s (head s i) (head s j)) h ≡ in_heap s h
  unfolding in_heap swap
  in_heap-swap h =
      ground
        (arith, v.indexed i, v.indexed j, v.filled i, v.filled j, v.filled (s.index h), ==_refl h)
