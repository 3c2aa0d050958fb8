-- ===== src/Mstar/Ring.antt =====
-- src/mstar/mstar_phase.c: the places of a window, in order round the end of the array, and the
-- sum of what stands there.
use fomo.Base.{
  ℕ, zero, suc, ◌+◌, ◌-◌, ◌%◌, ◌≤◌, ◌<◌, ◌≡◌, refl, List, false, ltb, ◌==◌, if◌then◌else◌, get_or,
  set, length, get_or-set, u32_mod, arith, Bool-cases, inl, inr,
}
use native.Mathlib.Nat.{mod-eq_of_lt, mod-eq-sub-mod}
use fomo.Mstar.Window.{Window}

-- An index past the end goes on at the front.
unfoldable pub wrap : ℕ → ℕ → ℕ
wrap size i = if ltb i size then i else i - size

pub mod-eq-wrap : (size i : ℕ) → i < size + size → i % size ≡ wrap size i
unfolding wrap
mod-eq-wrap size i h = elim (Bool-cases (ltb i size)) [
  | inl small ↦ ground (arith, mod-eq_of_lt {n = i} {m = size} (ground arith))
  | inr big ↦ ground (
    arith,
    mod-eq-sub-mod {n = i} {m = size} (ground arith),
    mod-eq_of_lt {n = i - size} {m = size} (ground arith),
  )
]

-- The sum of the `n` values from index `start` on, going round at `size`.
unfoldable pub total : List ℕ → ℕ → ℕ → ℕ → ℕ
total values size start zero = 0
total values size start (suc n) =
    total values size start n + get_or values (wrap size (start + n)) 0

-- The window holds bits, within its bounds, and its sum is theirs.
pub record IsValid (w : Window) : Type 0 where
  pub some_place : 0 < w.size
  pub small : w.size + w.size < u32_mod
  pub places : length w.values ≡ w.size
  pub start_in : w.start < w.size
  pub len_in : w.len ≤ w.size
  pub end_at : w.end ≡ wrap w.size (w.start + w.len)
  pub bits : (i : ℕ) → get_or w.values i 0 ≤ 1
  pub summed : w.sum ≡ total w.values w.size w.start w.len

pub total-le :
    (values : List ℕ) (size start n : ℕ)
    → ((i : ℕ) → get_or values i 0 ≤ 1)
    → total values size start n ≤ n
unfolding total
total-le values size start zero bits = omega arith
total-le values size start (suc n) bits =
    omega (arith, total-le values size start n bits, bits (wrap size (start + n)))

-- The first value leaves the front.
wrap-zero : (size start : ℕ) → start < size → wrap size (start + 0) ≡ start
unfolding wrap
wrap-zero size start h = ground arith

pub wrap-wrap :
    (size start n : ℕ)
    → start < size
    → suc n < size
    → wrap size (wrap size (start + 1) + n) ≡ wrap size (start + suc n)
unfolding wrap
wrap-wrap size start n h k = ground arith

pub wrap-lt : (size i : ℕ) → i < size + size → wrap size i < size
unfolding wrap
wrap-lt size i h = ground arith

pub wrap-ne :
    (size start n k : ℕ)
    → start < size
    → n < size
    → k < n
    → (wrap size (start + n) == wrap size (start + k)) ≡ false
unfolding wrap
wrap-ne size start n k h i j = ground arith

pub total-front :
    (values : List ℕ) (size start n : ℕ)
    → start < size
    → suc n ≤ size
    → total values size start (suc n)
      ≡ get_or values start 0 + total values size (wrap size (start + 1)) n
unfolding total
total-front values size start zero s b = rw (wrap-zero size start s) (omega arith)
total-front values size start (suc n) s b =
    ground (
      arith,
      total-front values size start n s (omega arith),
      wrap-wrap size start n s (omega arith),
    )

pub total-snoc :
    (values : List ℕ) (size start n : ℕ)
    → total values size start (n + 1)
      ≡ total values size start n + get_or values (wrap size (start + n)) 0
unfolding total
total-snoc values size start n = let e : n + 1 ≡ suc n = omega arith in rw e refl

pub wrap-next :
    (size start n : ℕ)
    → start < size
    → n < size
    → wrap size (wrap size (start + n) + 1) ≡ wrap size (start + (n + 1))
unfolding wrap
wrap-next size start n h k = ground arith

-- A write just past the values changes none of them.
pub total-set :
    (values : List ℕ) (size start n v : ℕ) (k : ℕ)
    → start < size
    → n < size
    → k ≤ n
    → length values ≡ size
    → total (set values (wrap size (start + n)) v) size start k ≡ total values size start k
unfolding total
total-set values size start n v zero s b l e = refl
total-set values size start n v (suc k) s b l e = ground (
  arith,
  total-set values size start n v k s b (omega arith) e,
  get_or-set values (wrap size (start + n)) (wrap size (start + k)) v 0,
  wrap-ne size start n k s b l,
  wrap-lt size (start + n),
)
