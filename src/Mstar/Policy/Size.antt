-- ===== src/Mstar/Policy/Size.antt =====
-- src/mstar/mstar_policy.c: the size of the ghost cache between one tenth and nine tenths of the
-- size of the cache.
use fomo.Base.{ℕ, ◌+◌, ◌-◌, ◌*◌, ◌/◌, ◌≤◌, ◌<◌, ◌≡◌, some, sub32, min, max, u32_mod, arith}
use native.Mathlib.Nat.{div-le_self}
use fomo.Mstar.Policy.{increase_ghost_size, decrease_ghost_size}

-- The bounds of the ghost cache of a cache of so many blocks.
pub record IsSized (cache_size size : ℕ) : Type 0 where
  pub ten : 10 ≤ cache_size
  pub word : 9 * cache_size < u32_mod
  pub least : cache_size / 10 ≤ size
  pub most : size ≤ 9 * cache_size / 10

-- For a cache of ten blocks or more that nine times fits a word, and a ghost size between one and
-- nine tenths of it: an increase holds its assertion, does not make the ghost size smaller, and
-- keeps these bounds.
pub increase_ghost_size-IsSized :
    (cache_size size : ℕ)
    → IsSized cache_size size
    → (size' : ℕ) × (increase_ghost_size cache_size size ≡ some size')
      × (size ≤ size')
      × IsSized cache_size size'
unfolding increase_ghost_size
increase_ghost_size-IsSized cache_size size s =
    let bound = div-le_self cache_size size in
    (
      min (9 * cache_size / 10) (size + cache_size / size),
      ground (arith, bound, s.ten, s.word, s.least, s.most),
      ground (arith, s.most),
      record {
        ten = s.ten;
        word = s.word;
        least = ground (arith, s.least, s.ten);
        most = ground arith;
      },
    )

-- For a cache of ten blocks or more that nine times fits a word, and a ghost size between one and
-- nine tenths of it: a decrease holds its assertion, does not make the ghost size larger, and
-- keeps these bounds.
pub decrease_ghost_size-IsSized :
    (cache_size size : ℕ)
    → IsSized cache_size size
    → (size' : ℕ) × (decrease_ghost_size cache_size size ≡ some size')
      × (size' ≤ size)
      × IsSized cache_size size'
unfolding decrease_ghost_size
decrease_ghost_size-IsSized cache_size size s =
    let room : sub32 cache_size size ≡ cache_size - size = omega (arith, s.ten, s.word, s.most) in
    let bound = div-le_self cache_size (cache_size - size) in
    (
      max (cache_size / 10) (size - cache_size / (cache_size - size)),
      rw room (ground (arith, bound, s.ten, s.word, s.least, s.most)),
      ground (arith, s.least),
      record {
        ten = s.ten;
        word = s.word;
        least = ground arith;
        most = ground (arith, s.most, s.ten);
      },
    )
