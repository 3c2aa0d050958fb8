-- ===== src/Table/Size.antt =====
-- src/include/tools/hashtable.h: the number of buckets, and the bits of the hash that number
-- them.
use fomo.Base.{
  ℕ, zero, suc, ◌+◌, ◌-◌, ◌*◌, ◌/◌, ◌%◌, ◌^◌, ◌≤◌, ◌<◌, ◌≡◌, refl, ap, sym, ◌⊎◌, subst, Bool, true,
  false, some, ltb, ◌==◌, ◌&&◌, max, u32_mod, Bool-cases, inl, inr, arith, [], ==→eq,
}
use native.Mathlib.Nat.{pow-suc}
use fomo.Table.{Table, power_from, next_power, ffs, ffs_from, init}

-- The loop ends with the first power that is not below `x`.
record Power (x pow k : ℕ) : Type 0 where
  reaches : x ≤ 2 ^ k
  from : pow ≤ k
  least : (j : ℕ) → pow ≤ j → j < k → 2 ^ j < x

power_from-Power :
    (fuel x pow : ℕ)
    → x ≤ 2 ^ (pow + fuel)
    → (k : ℕ) × (power_from (suc fuel) x pow ≡ some k) × Power x pow k
unfolding power_from
power_from-Power zero x pow enough =
    let e : x ≤ 2 ^ pow = subst (λ n. x ≤ 2 ^ n) (omega arith) enough in
    (
      pow,
      ground arith,
      record { reaches = e; from = omega arith; least = λ j a b. absurd (omega arith) },
    )
power_from-Power (suc fuel) x pow enough = elim (Bool-cases (ltb (2 ^ pow) x)) [
  | inr done ↦ (
    pow,
    rw done,
    record { reaches = ground arith; from = omega arith; least = λ j a b. absurd (omega arith) },
  )
  | inl more ↦
      let (k, found, p) =
        power_from-Power fuel x (pow + 1) (subst (λ n. x ≤ 2 ^ n) (omega arith) enough) in
      (
        k,
        rw more found,
        record {
          reaches = p.reaches;
          from = omega (arith, p.from);
          least = λ j a b. elim (Bool-cases (j == pow)) [
            | inl e ↦ rw (==→eq j pow e) (ground arith)
            | inr n ↦ p.least j (ground arith) b
          ];
        },
      )
]

-- The position of the only bit of a power of two, for every power of a word.
all_ffs : ℕ → Bool
all_ffs zero = true
all_ffs (suc k) = (ffs (2 ^ k) - 1 == k) && all_ffs k

ffs_table : all_ffs 32 ≡ true
unfolding all_ffs ffs_from
ffs_table = refl

all_ffs_sound : (n k : ℕ) → all_ffs n ≡ true → k < n → ffs (2 ^ k) - 1 ≡ k
unfolding all_ffs
all_ffs_sound zero k h l = elim l [ ]
all_ffs_sound (suc n) k h l = elim (Bool-cases (k == n)) [
  | inl e ↦ rw (==→eq k n e) (ground arith)
  | inr ne ↦ all_ffs_sound n k (ground arith) (ground arith)
]

-- The double of what a least power must not reach.
pow_below_double : (x k : ℕ) → 0 < x → Power x 0 k → 2 ^ k < 2 * x
pow_below_double x zero pos p = omega arith
pow_below_double x (suc k) pos p =
    let below : 2 ^ k < x = p.least k (omega arith) (omega arith) in rw (pow-suc 2 k) (omega arith)

-- For a cache size that is a word, `ht_init` makes empty buckets; their number is a power of two,
-- the bits of the hash its exponent, at least 16 and half the size, and less than twice the larger
-- of these.
pub init-size :
    (hash : ℕ → ℕ → ℕ) (size : ℕ)
    → size < u32_mod
    → (t : Table) × (init hash size ≡ some t)
      × (t.nr_buckets ≡ 2 ^ t.hash_bits)
      × (max (size / 2) 16 ≤ t.nr_buckets)
      × (t.nr_buckets < 2 * max (size / 2) 16)
      × ((b : ℕ) → t.table b ≡ [])
unfolding init next_power
init-size hash size word =
    let (k, found, p) = power_from-Power 32 (max (size / 2) 16) 0 (ground arith) in
    let half : (size % u32_mod) / 2 ≡ size / 2 = omega arith in
    let bits : k < 32 = fits k p (Bool-cases (ltb k 32)) in
    let one_bit : ffs (2 ^ k) - 1 ≡ k = all_ffs_sound 32 k ffs_table bits in
    (
      record { nr_buckets = 2 ^ k; hash_bits = ffs (2 ^ k) - 1; table = λ _. []; hash_64 = hash },
      rw (half, found),
      ap (λ n. 2 ^ n) (sym one_bit),
      p.reaches,
      pow_below_double (max (size / 2) 16) k (ground arith) p,
      (λ b. refl),
    )
  where
    fits : (k : ℕ) → Power (max (size / 2) 16) 0 k → (ltb k 32 ≡ true) ⊎ (ltb k 32 ≡ false) → k < 32
    fits k p (inl b) = ground arith
    fits k p (inr b) = absurd (
        let low : 2 ^ 31 < max (size / 2) 16 = p.least 31 (omega arith) (ground arith) in
        ground arith)
