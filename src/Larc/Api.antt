-- ===== src/Larc/Api.antt =====
-- src/algs/larc/larc_policy.c: the other operations of LARC, and LARC as a policy.
use fomo.Base.{ℕ, ◌/◌, Bool, Option, none, some, if◌then◌else◌, ◌>>=◌}
use fomo.Entry.{Memory}
use fomo.Entry.Stats.{inc_promotions}
use fomo.Pool
use fomo.Queue
use fomo.Queue.{no_queues}
use fomo.Nucleus
use fomo.Nucleus.{Operation}
use fomo.Nucleus.Policy.{Policy}
use fomo.Larc.{Larc, q_list, g_list, transaction_init, transaction_set, transaction_is_legal}
use fomo.Larc.Access.{with_stats, remove_entry, map}

-- `larc_remove_api`
unfoldable pub remove : Larc → ℕ → Bool → Option Larc
remove l oblock remove_to_history =
    let (e?, n) = Nucleus.lookup l.nucleus oblock in
    e? >>= λ e. remove_entry (record l { nucleus = n }) e

-- `larc_insert_api`
unfoldable pub insert : Larc → ℕ → ℕ → Option Larc
insert l oblock cblock = Nucleus.insert_in_cache_at l.nucleus oblock cblock none >>= λ r.
    (let (e, n, filled) = r in
      some (record l { nucleus = n; queues = Queue.push l.queues q_list e }))

-- `larc_migrated_api`, with what it and `migrated_entry` assert.
unfoldable pub migrated : Larc → ℕ → Option Larc
migrated l oblock =
    let (e?, n) = Nucleus.lookup l.nucleus oblock in
    e? >>= λ e. Pool.migrated_entry n.cache_pool n.mem e >>= λ r. some (
      with_stats
        (record l {
          nucleus = record n { cache_pool = r.0; mem = r.1 };
          queues = Queue.push l.queues q_list e;
        })
        inc_promotions)

-- `larc_next_victim_api`
unfoldable pub next_victim : Larc → ℕ → Option (Operation × Option ℕ × Larc)
next_victim l oblock = transaction_set l (transaction_init l oblock) >>= λ t.
    (let (l', lt) = t in
      if transaction_is_legal l' lt
      then (if lt.c_evict
          then (Queue.peek l'.queues q_list >>= λ e. some (Operation.replace, some e, l'))
          else (if lt.g_hit
              then some (Operation.new, none, l')
              else some (Operation.filter, none, l')))
      else some (Operation.fail, none, l'))

-- `larc_init` where `mem_alloc` finds the memory, the two pools at their addresses.
unfoldable pub init : (ℕ → ℕ → ℕ) → Memory → ℕ → ℕ → ℕ → ℕ → Option Larc
init hash mem cache_address meta_address cache_size meta_size =
    Nucleus.policy_init hash mem (Pool.create cache_address cache_size)
      (Pool.create meta_address meta_size) cache_size meta_size
    >>= λ n. some (record {
      nucleus = n;
      queues = Queue.init (Queue.init no_queues q_list) g_list;
      g_size = meta_size / 10;
    })

-- The function pointers that `larc_init` sets.
abbrev pub as_policy : Policy
as_policy = record {
  State = Larc;
  map = map;
  remove = remove;
  insert = insert;
  migrated = migrated;
  cache_lookup = λ l o.
      let (e?, n) = Nucleus.default_cache_lookup l.nucleus o in (e?, record l { nucleus = n });
  meta_lookup = λ l o.
      let (e?, n) = Nucleus.default_meta_lookup l.nucleus o in (e?, record l { nucleus = n });
  cblock_lookup = λ l c. Nucleus.default_cblock_lookup l.nucleus c;
  remap = λ l o o'. Nucleus.default_remap l.nucleus o o' >>= λ n. some (record l { nucleus = n });
  get_stats = λ l stats. Nucleus.default_get_stats l.nucleus stats;
  set_time = λ l time. record l { nucleus = Nucleus.default_set_time l.nucleus time };
  residency = λ l. Nucleus.default_residency l.nucleus;
  cache_is_full = λ l. Nucleus.cache_is_full l.nucleus;
  infer_cblock = λ l e. Nucleus.default_infer_cblock l.nucleus e;
  next_victim = next_victim;
  pool_is_full = λ l. Nucleus.cache_is_full l.nucleus;
}
