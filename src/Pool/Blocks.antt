-- ===== src/Pool/Blocks.antt =====
-- src/include/tools/epool.h: entries and their cache blocks.
use fomo.Base.{ℕ, ◌+◌, ◌≤◌, ◌<◌, ◌≡◌, none, some, u32_mod, arith}
use fomo.Pool.{Pool, at, in_pool, infer_cblock}

-- In a pool whose indices do not wrap, `epool_at` of the block that `infer_cblock` gives for an
-- entry is that entry.
pub at-infer_cblock :
    (p : Pool) (e : ℕ) {c : ℕ}
    → p.nr_entries + p.starting_index ≤ u32_mod
    → infer_cblock p e ≡ some c
    → at p c ≡ some e
unfolding at infer_cblock in_pool
at-infer_cblock p e fits h = ground arith

-- In a pool of two entries or more whose indices do not wrap, `infer_cblock` of the entry that
-- `epool_at` gives for a block is that block.
pub infer_cblock-at :
    (p : Pool) (c : ℕ) {e : ℕ}
    → 1 < p.nr_entries
    → p.nr_entries + p.starting_index ≤ u32_mod
    → c < u32_mod
    → at p c ≡ some e
    → infer_cblock p e ≡ some c
unfolding at infer_cblock in_pool
infer_cblock-at p c two fits word h = ground arith

-- In a pool of one entry `infer_cblock` reads the address of a second.
pub infer_cblock_alone : (p : Pool) (e : ℕ) → p.nr_entries ≡ 1 → infer_cblock p e ≡ none
unfolding infer_cblock in_pool
infer_cblock_alone p e one = ground arith
