-- ===== src/Ghost/Fresh.antt =====
-- A new nucleus of src/include/cache_nucleus_internal.h with an empty queue, as FOMO and m* make
-- it, seen as a miss history.
use fomo.Base.{
  ℕ, ◌<◌, ◌≡◌, refl, [], true, false, some, mem, mem-nil, length, u32_mod, add32, arith, Distinct,
}
use fomo.Entry.{Memory}
use fomo.Entry.Stats.{zeros}
use fomo.Pool
use fomo.Pool.Init.{init-create}
use fomo.Table.Size.{init-size}
use fomo.Queue
use fomo.Queue.{no_queues}
use fomo.Ghost.{mh}
use fomo.Ghost.Valid.{Shows}
use fomo.Nucleus
use fomo.Nucleus.{Nucleus}

-- A nucleus with this many free entries, all of them in the meta pool, and an empty table.
pub record Blank (n : Nucleus) (size : ℕ) : Type 0 where
  free_iff : (e : ℕ) → mem e n.meta_pool.free ≡ Pool.in_pool n.meta_pool e
  distinct : Distinct n.meta_pool.free
  count : length n.meta_pool.free ≡ size
  nr : n.meta_pool.nr_entries ≡ size
  allocated : n.meta_pool.nr_allocated ≡ 0
  still : (e : ℕ) → Pool.in_pool n.meta_pool e ≡ true → (n.mem.entry e).migrating ≡ false
  table : (b : ℕ) → n.ht.table b ≡ []
  no_cache : n.cache_pool.nr_entries ≡ 0
  limit : n.meta_size ≡ size

-- `policy_init` over the pools that FOMO and m* create succeeds, whatever the memory held.
pub policy_init-Blank :
    (hash : ℕ → ℕ → ℕ) (m : Memory) (address size : ℕ)
    → size < u32_mod
    → (n : Nucleus) × (Nucleus.policy_init hash m
          (Pool.create 0 0)
          (Pool.create address size)
          0
          size
        ≡ some n)
      × Blank n size
unfolding Nucleus.policy_init
policy_init-Blank hash m address size word =
    let (c, m1, made_c, _, _, _, nr_c, _, _, _, _, _, _) = init-create 0 0 m (omega arith) in
    let (p, m2, made, free, d, len, nr, _, none_allocated, _, _, _, still) =
      init-create address size m1 word in
    let (t, made_t, _, _, _, chains) = init-size hash size word in
    let same : add32 0 size ≡ size = omega arith in
    (
      record {
        meta_size = size;
        cache_size = 0;
        meta_pool = p;
        cache_pool = c;
        stats = zeros;
        ht = t;
        time = 0;
        mem = m2;
      },
      rw (made_c, made, same, made_t),
      record {
        free_iff = free;
        distinct = d;
        count = len;
        nr = nr;
        allocated = none_allocated;
        still = still;
        table = chains;
        no_cache = nr_c;
        limit = refl;
      },
    )

-- An empty queue over a blank nucleus is a valid history of no blocks.
pub Blank-Shows :
    (n : Nucleus) (size : ℕ)
    → size < u32_mod
    → Blank n size
    → Shows size (record { nucleus = n; queues = Queue.init no_queues mh }) []
unfolding Queue.init Pool.in_pool
Blank-Shows n size word b = record {
  valid = record {
    queue = record {
      len_eq = refl;
      distinct = tt;
      small = omega arith;
      parent_in = λ h. unfold Queue.in_queue in (ground (arith, mem-nil h));
    };
    lone = λ e h. refl;
    names = tt;
    chained = λ c e. ground (arith, b.table c, mem-nil e);
    free_iff = λ e. ground (arith, b.free_iff e, mem-nil e);
    pooled = λ e h. ground (arith, mem-nil e);
    still = b.still;
    free_distinct = b.distinct;
    count = omega (arith, b.count, b.nr);
    allocated = b.allocated;
    small = omega (arith, b.nr);
    no_cache = b.no_cache;
  };
  shown = refl;
  size = b.nr;
  limit = b.limit;
}
