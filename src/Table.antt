-- ===== src/Table.antt =====
-- src/include/tools/hashtable.h: entries chained by the hash of their origin block.
pub mod Chain
pub mod Size
use fomo.Base.{
  ℕ, zero, suc, ◌+◌, ◌-◌, ◌/◌, ◌%◌, ◌*◌, ◌^◌, Bool, true, false, Option, none, some, List, [], ◌∷◌,
  ltb, ◌==◌, if◌then◌else◌, ◌>>=◌, remove, update, max, u32_mod,
}
use fomo.Entry.{Entry, Memory}

-- `table h` is the chain of bucket `h`. `hash_64` is the function of kernel/hash.h, from a block
-- and a number of bits to a bucket.
pub record Table : Type 0 where
  pub nr_buckets : ℕ
  pub hash_bits : ℕ
  pub table : ℕ → List ℕ
  pub hash_64 : ℕ → ℕ → ℕ

-- The loop of `next_power`: the first power from `pow` on that is not below `x`.
unfoldable pub power_from : ℕ → ℕ → ℕ → Option ℕ
power_from zero x pow = none
power_from (suc fuel) x pow =
    let rest = power_from fuel x (pow + 1) in if ltb (2 ^ pow) x then rest else some pow

-- `next_power`. The shift is by at most 32 bits.
unfoldable pub next_power : ℕ → ℕ → Option ℕ
next_power n min = power_from 33 (max n min) 0 >>= λ pow. some (2 ^ pow)

-- `ffs` of the C library: the position of the lowest bit that is set, from 1 on; 0 without one.
unfoldable pub ffs_from : ℕ → ℕ → ℕ → ℕ
ffs_from zero x i = 0
ffs_from (suc fuel) x i = let rest = ffs_from fuel (x / 2) (i + 1) in if x % 2 == 1 then i else rest

abbrev pub ffs : ℕ → ℕ
ffs x = ffs_from 32 x 1

-- `ht_init`, where `mem_alloc` finds the memory.
unfoldable pub init : (ℕ → ℕ → ℕ) → ℕ → Option Table
init hash cache_size = next_power ((cache_size % u32_mod) / 2) 16 >>= λ nr.
    some (record { nr_buckets = nr; hash_bits = ffs nr - 1; table = λ _. []; hash_64 = hash })

-- The bucket of a block.
abbrev pub bucket : Table → ℕ → ℕ
bucket t oblock = t.hash_64 oblock t.hash_bits

-- `hash_insert`: at the head of the chain.
unfoldable pub insert : Table → Memory → ℕ → Table
insert t m e =
    let h = bucket t (m.entry e).oblock in record t { table = update t.table h (e ∷ t.table h) }

-- The walk of `hash_lookup` along a chain.
unfoldable pub chain_find : Memory → ℕ → List ℕ → Option ℕ
chain_find m oblock [] = none
chain_find m oblock (e ∷ es) =
    let rest = chain_find m oblock es in if (m.entry e).oblock == oblock then some e else rest

-- `hash_lookup`: what is found moves to the head of its chain.
unfoldable pub lookup : Table → Memory → ℕ → Option ℕ × Table
lookup t m oblock =
    let h = bucket t oblock in
    elim (chain_find m oblock (t.table h)) [
      | none ↦ (none, t)
      | some e ↦ (some e, record t { table = update t.table h (e ∷ remove e (t.table h)) })
    ]

-- `hash_remove`: the entry leaves the chain that it is in. Nothing happens to one that is in none,
-- where the code goes through the null pointer of its `pprev`.
unfoldable pub take_out : Table → ℕ → Table
take_out t e = record t { table = λ h. remove e (t.table h) }
