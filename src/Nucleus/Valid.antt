-- ===== src/Nucleus/Valid.antt =====
-- src/include/cache_nucleus_internal.h: when the two pools, the table and the memory of a policy
-- agree, and what a lookup finds then.
use fomo.Base.{
  ℕ, ◌≡◌, Bool, true, false, none, some, ◌&&◌, ◌||◌, ◌==◌, mem, update, ==_refl, Option-cases, inl,
  inr, arith,
}
use fomo.Entry.{Memory, name_entry}
use fomo.Entry.Stats.{Stats}
use fomo.Pool
use fomo.Pool.Valid
use fomo.Queue
use fomo.Table.{bucket}
use fomo.Table.Chain.{mem-lookup, bucket-lookup, lookup-some, lookup-none}
use fomo.Nucleus.{Nucleus, lookup}

abbrev pub oblock_of : Nucleus → ℕ → ℕ
oblock_of n e = (n.mem.entry e).oblock

abbrev pub in_cache_pool : Nucleus → ℕ → Bool
in_cache_pool n e = Pool.in_pool n.cache_pool e

abbrev pub in_meta_pool : Nucleus → ℕ → Bool
in_meta_pool n e = Pool.in_pool n.meta_pool e

-- An entry of one of the pools that is allocated.
abbrev pub live : Nucleus → ℕ → Bool
live n e = (in_cache_pool n e || in_meta_pool n e) && (n.mem.entry e).allocated

-- Each live entry is in its chain and in no other, and no two of them have one block.
pub record IsValid (n : Nucleus) : Type 0 where
  pub cache : Valid.IsValid n.cache_pool n.mem.entry
  pub meta : Valid.IsValid n.meta_pool n.mem.entry
  pub apart : (e : ℕ) → in_cache_pool n e ≡ true → in_meta_pool n e ≡ false
  pub chained : (b e : ℕ) → mem e (n.ht.table b) ≡ (live n e && (bucket n.ht (oblock_of n e) == b))
  pub names :
      (e a : ℕ) → live n e ≡ true → live n a ≡ true → (oblock_of n e == oblock_of n a) ≡ (e == a)

-- The memory in which the entry is taken for the block.
unfoldable pub named : Memory → ℕ → ℕ → Memory
named m e o =
    name_entry
      (record {
        entry = update m.entry e (record (m.entry e) { allocated = true });
        wb = Queue.head_init m.wb e;
      })
      e o

pub lookup-IsValid : (n : Nucleus) (o : ℕ) → IsValid n → IsValid (lookup n o).1
unfolding lookup
lookup-IsValid n o v = record {
  cache = v.cache;
  meta = v.meta;
  apart = v.apart;
  chained = λ b e. ground (
    arith,
    v.chained b e,
    mem-lookup n.ht n.mem o b e,
    bucket-lookup n.ht n.mem o (oblock_of n e),
  );
  names = v.names;
}

-- What a lookup finds is live and has the block.
pub lookup_found :
    (n : Nucleus) (o : ℕ) {e : ℕ}
    → IsValid n
    → (lookup n o).0 ≡ some e
    → (live n e ≡ true) × (oblock_of n e ≡ o)
unfolding lookup
lookup_found n o {e} v h =
    let found : (mem e (n.ht.table (bucket n.ht o)) ≡ true) × (oblock_of n e ≡ o) =
      lookup-some n.ht n.mem o h in
    (ground (arith, found, v.chained (bucket n.ht o) e), found.1)

-- Without a find no live entry has the block.
pub lookup_missed :
    (n : Nucleus) (o e : ℕ)
    → IsValid n
    → (lookup n o).0 ≡ none
    → live n e ≡ true
    → (oblock_of n e == o) ≡ false
unfolding lookup
lookup_missed n o e v h l =
    ground
      (arith, v.chained (bucket n.ht o) e, lookup-none n.ht n.mem o e h, ==_refl (bucket n.ht o))

-- A live entry is what the lookup of its block finds.
pub lookup-live :
    (n : Nucleus) (o e : ℕ)
    → IsValid n
    → live n e ≡ true
    → oblock_of n e ≡ o
    → (lookup n o).0 ≡ some e
lookup-live n o e v l block = elim (Option-cases (lookup n o).0) [
  | inl p ↦ absurd (ground (arith, lookup_missed n o e v p l, block, ==_refl o))
  | inr (a, p) ↦
      let (on, same) = lookup_found n o v p in
      ground (arith, p, v.names e a l on, block, same, ==_refl o)
]

-- The statistics do not matter.
pub restat-IsValid :
    (n : Nucleus) (stats : Stats) → IsValid n → IsValid (record n { stats = stats })
restat-IsValid n stats v = record {
  cache = v.cache;
  meta = v.meta;
  apart = v.apart;
  chained = v.chained;
  names = v.names;
}
