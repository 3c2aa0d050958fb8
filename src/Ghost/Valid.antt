-- ===== src/Ghost/Valid.antt =====
-- The invariant of a miss history, and the list that a valid history shows.
use fomo.Base.{
  ℕ, ◌+◌, ◌<◌, ◌≡◌, List, true, false, none, not, ◌&&◌, ◌==◌, mem, length, Distinct, u32_mod,
}
use fomo.Pool
use fomo.Queue.Order
use fomo.Table.{bucket}
use fomo.Ghost.{Ghost, mh, entries, oblock_of, history}

-- The queue, the chains, the free list and the counters of a history agree.
pub record IsValid (g : Ghost) : Type 0 where
  pub queue : Order.IsValid g.queues mh
  pub lone : (e : ℕ) → mem e (entries g) ≡ false → g.queues.parent e ≡ none
  pub names : Distinct (history g)
  pub chained :
      (b e : ℕ)
      → mem e (g.nucleus.ht.table b)
        ≡ (mem e (entries g) && (bucket g.nucleus.ht (oblock_of g e) == b))
  pub free_iff :
      (e : ℕ)
      → mem e g.nucleus.meta_pool.free
        ≡ (Pool.in_pool g.nucleus.meta_pool e && not (mem e (entries g)))
  pub pooled : (e : ℕ) → mem e (entries g) ≡ true → Pool.in_pool g.nucleus.meta_pool e ≡ true
  pub still :
      (e : ℕ)
      → Pool.in_pool g.nucleus.meta_pool e ≡ true
      → (g.nucleus.mem.entry e).migrating ≡ false
  pub free_distinct : Distinct g.nucleus.meta_pool.free
  pub count : length g.nucleus.meta_pool.free + length (entries g) ≡ g.nucleus.meta_pool.nr_entries
  pub allocated : g.nucleus.meta_pool.nr_allocated ≡ length (entries g)
  pub small : g.nucleus.meta_pool.nr_entries < u32_mod
  pub no_cache : g.nucleus.cache_pool.nr_entries ≡ 0

-- A valid history of so many entries, in a nucleus of that meta size, shows these blocks, least recent first.
pub record Shows (cap : ℕ) (g : Ghost) (h : List ℕ) : Type 0 where
  pub valid : IsValid g
  pub shown : history g ≡ h
  pub size : g.nucleus.meta_pool.nr_entries ≡ cap
  pub limit : g.nucleus.meta_size ≡ cap

-- The entry is in the history, for this block.
pub record IsEntry (g : Ghost) (e oblock : ℕ) : Type 0 where
  pub inside : mem e (entries g) ≡ true
  pub named : oblock_of g e ≡ oblock
