-- ===== src/Nucleus.antt =====
-- src/include/cache_nucleus_struct.h and src/include/cache_nucleus_internal.h: the part that every
-- policy is built on, its pools, its table of entries and the defaults of the interface.
pub mod Policy
pub mod Valid
pub mod Insert
pub mod Remove
pub mod Cached
pub mod Fresh
pub mod Touched
use fomo.Base.{
  ℕ, ◌+◌, Bool, false, Option, none, some, List, [], ◌∷◌, if◌then◌else◌, ◌>>=◌, add32, update, ◌||◌,
}
use fomo.Queue
use fomo.Entry.{Entry, Memory, name_entry, rename_entry}
use fomo.Entry.Stats.{Stats, zeros, add_stats}
use fomo.Pool
use fomo.Pool.{Pool}
use fomo.Table
use fomo.Table.{Table}

-- `enum cache_nucleus_operation`
pub data Operation : Type 0 where
  hit filter new replace fail : Operation

-- `struct cache_nucleus_result`
pub record Result : Type 0 where
  pub op : Operation
  pub old_oblock : ℕ
  pub cblock : ℕ
  pub dirty_eviction : Bool

-- `struct cache_nucleus` less its function pointers, which are `Policy`, and its thread support.
pub record Nucleus : Type 0 where
  pub meta_size : ℕ
  pub cache_size : ℕ
  pub meta_pool : Pool
  pub cache_pool : Pool
  pub stats : Stats
  pub ht : Table
  pub time : ℕ
  pub mem : Memory

-- `alloc_pool_entry`, from the pool that is handed in.
unfoldable pub alloc_pool_entry : Table → Memory → Pool → ℕ → Option (ℕ × Table × Memory × Pool)
alloc_pool_entry t m p oblock =
    let (e?, p', m') = Pool.alloc_entry p m in
    e? >>= λ e. (let m'' = name_entry m' e oblock in some (e, Table.insert t m'' e, m'', p'))

-- `alloc_pool_entry_at`
unfoldable pub alloc_pool_entry_at :
    Table → Memory → Pool → ℕ → ℕ → Option (ℕ × Table × Memory × Pool)
alloc_pool_entry_at t m p oblock cblock = Pool.alloc_particular_entry p m cblock >>= λ r.
    (let (e, p', m') = r in
      let m'' = name_entry m' e oblock in some (e, Table.insert t m'' e, m'', p'))

-- `insert_in_meta`
unfoldable pub insert_in_meta : Nucleus → ℕ → Option (ℕ × Nucleus)
insert_in_meta n oblock = alloc_pool_entry n.ht n.mem n.meta_pool oblock >>= λ r.
    (let (e, t, m, p) = r in some (e, record n { meta_pool = p; ht = t; mem = m }))

-- `in_meta`; the null pointer is in no pool.
unfoldable pub in_meta : Nucleus → Option ℕ → Bool
in_meta n e? = elim e? [ none ↦ false | some e ↦ Pool.in_pool n.meta_pool e ]

-- `meta_is_full`
unfoldable pub meta_is_full : Nucleus → Bool
meta_is_full n = Pool.empty n.meta_pool

-- `insert_in_cache`: a result that is handed in takes the cache block.
unfoldable pub insert_in_cache : Nucleus → ℕ → Option Result → Option (ℕ × Nucleus × Option Result)
insert_in_cache n oblock result? = alloc_pool_entry n.ht n.mem n.cache_pool oblock >>= λ r.
    (let (e, t, m, p) = r in
      let n' = record n { cache_pool = p; ht = t; mem = m } in
      elim result? [
        | none ↦ some (e, n', none)
        | some result ↦
            Pool.infer_cblock p e >>= λ c. some (e, n', some (record result { cblock = c }))
      ])

-- `insert_in_cache_at`: a result that is handed in takes the cache block.
unfoldable pub insert_in_cache_at :
    Nucleus → ℕ → ℕ → Option Result → Option (ℕ × Nucleus × Option Result)
insert_in_cache_at n oblock cblock result? =
    alloc_pool_entry_at n.ht n.mem n.cache_pool oblock cblock >>= λ r.
    (let (e, t, m, p) = r in
      let filled : Option Result = elim result? [
        | none ↦ none
        | some result ↦ some (record result { cblock = cblock })
      ] in
      some (e, record n { cache_pool = p; ht = t; mem = m }, filled))

-- `in_cache`
unfoldable pub in_cache : Nucleus → Option ℕ → Bool
in_cache n e? = elim e? [ none ↦ false | some e ↦ Pool.in_pool n.cache_pool e ]

-- `cache_is_full`, also `default_cache_is_full`
unfoldable pub cache_is_full : Nucleus → Bool
cache_is_full n = Pool.empty n.cache_pool

-- `cache_nucleus_remove`
unfoldable pub remove_entry : Nucleus → ℕ → Option Nucleus
remove_entry n e =
    let m = record n.mem { wb = Queue.take_out n.mem.wb e } in
    let t = Table.take_out n.ht e in
    if Pool.in_pool n.cache_pool e
    then (Pool.free_entry n.cache_pool m e >>= λ r.
        (let (p, m') = r in some (record n { cache_pool = p; ht = t; mem = m' })))
    else (Pool.free_entry n.meta_pool m e >>= λ r.
        (let (p, m') = r in some (record n { meta_pool = p; ht = t; mem = m' })))

-- `hash_lookup` in the policy's table.
unfoldable pub lookup : Nucleus → ℕ → Option ℕ × Nucleus
lookup n oblock = let (e?, t) = Table.lookup n.ht n.mem oblock in (e?, record n { ht = t })

-- The dirty work at the end of the access of a policy, such as `larc_map_api`.
unfoldable pub note_write : Nucleus → ℕ → Bool → Nucleus
note_write n oblock write =
    let (e?, n') = lookup n oblock in
    if in_cache n' e?
    then elim e? [
      | none ↦ n'
      | some e ↦ record n' {
        mem = record n'.mem {
          entry =
              update n'.mem.entry e
                (record (n'.mem.entry e) { dirty = (n'.mem.entry e).dirty || write });
        };
      }
    ]
    else n'

-- `default_cache_lookup`
unfoldable pub default_cache_lookup : Nucleus → ℕ → Option ℕ × Nucleus
default_cache_lookup n oblock =
    let (e?, n') = lookup n oblock in (if in_cache n' e? then e? else none, n')

-- `default_meta_lookup`
unfoldable pub default_meta_lookup : Nucleus → ℕ → Option ℕ × Nucleus
default_meta_lookup n oblock =
    let (e?, n') = lookup n oblock in (if in_meta n' e? then e? else none, n')

-- `default_cblock_lookup`
unfoldable pub default_cblock_lookup : Nucleus → ℕ → Option ℕ
default_cblock_lookup n cblock = Pool.at n.cache_pool cblock

-- Take the entry from its chain, give it the new block, and put it into the chain of that block.
unfoldable pub rehash : Nucleus → ℕ → ℕ → Nucleus
rehash n e oblock =
    let m = rename_entry n.mem e oblock in
    record n { mem = m; ht = Table.insert (Table.take_out n.ht e) m e }

-- `default_remap`: with no entry for the current block, `hash_remove` goes through a null pointer.
unfoldable pub default_remap : Nucleus → ℕ → ℕ → Option Nucleus
default_remap n current_oblock new_oblock =
    let (e?, n') = lookup n current_oblock in e? >>= λ e. some (rehash n' e new_oblock)

-- `default_get_stats`
unfoldable pub default_get_stats : Nucleus → Stats → Stats
default_get_stats n stats = add_stats stats n.stats

-- `default_set_time`
unfoldable pub default_set_time : Nucleus → ℕ → Nucleus
default_set_time n time = record n { time = time }

-- `default_residency`
unfoldable pub default_residency : Nucleus → ℕ
default_residency n = n.cache_pool.nr_allocated

-- `default_infer_cblock`
unfoldable pub default_infer_cblock : Nucleus → ℕ → Option ℕ
default_infer_cblock n e = Pool.infer_cblock n.cache_pool e

-- `policy_init` over the pools that `epool_create` has made, where `mem_alloc` finds the memory.
unfoldable pub policy_init : (ℕ → ℕ → ℕ) → Memory → Pool → Pool → ℕ → ℕ → Option Nucleus
policy_init hash m cache_pool meta_pool cache_size meta_size = Pool.init cache_pool 0 m >>= λ c.
    Pool.init meta_pool 0 c.1 >>= λ d. Table.init hash (add32 cache_size meta_size) >>= λ t.
    some (record {
      meta_size = meta_size;
      cache_size = cache_size;
      meta_pool = d.0;
      cache_pool = c.0;
      stats = zeros;
      ht = t;
      time = 0;
      mem = d.1;
    })
