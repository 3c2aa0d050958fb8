-- ===== src/Lfu/Order.antt =====
-- src/algs/lfu/lfu_policy.c: the order of `lfu_compare`.
use fomo.Base.{ℕ, ◌<◌, ◌≡◌, ltb, ◌==◌, ◌&&◌, ◌||◌, arith}
use fomo.Entry.{Memory}
use fomo.Lfu.{negative, compare_less}

-- The difference of two words below 2 ^ 31, as an `int`, has the sign that it should have.
negative-ltb : (a b : ℕ) → a < 2147483648 → b < 2147483648 → negative a b ≡ ltb a b
unfolding negative
negative-ltb a b small_a small_b = ground arith

-- For frequencies and times below 2 ^ 31, `lfu_compare` puts a head before another exactly when it
-- has been used less often, or as often and its last use is the older one.
pub lfu_compare-order :
    (mem : Memory) (key : ℕ → ℕ) (a b : ℕ)
    → key a < 2147483648
    → key b < 2147483648
    → (mem.entry a).time < 2147483648
    → (mem.entry b).time < 2147483648
    → compare_less mem key a b
      ≡ (ltb (key a) (key b) || (key a == key b && ltb (mem.entry a).time (mem.entry b).time))
unfolding compare_less
lfu_compare-order mem key a b ka kb ta tb = ground (
  arith,
  negative-ltb (key a) (key b) ka kb,
  negative-ltb (mem.entry a).time (mem.entry b).time ta tb,
)
