-- ===== src/Lru/Api.antt =====
-- src/algs/lru/lru_policy.c: the other operations of LRU, and LRU as a policy.
use fomo.Base.{ℕ, Bool, Option, none, some, if◌then◌else◌, ◌>>=◌}
use fomo.Entry.{Memory}
use fomo.Entry.Stats.{inc_promotions}
use fomo.Pool
use fomo.Queue
use fomo.Queue.{no_queues}
use fomo.Nucleus
use fomo.Nucleus.{Operation}
use fomo.Nucleus.Policy.{Policy}
use fomo.Lru.{
  Lru, lru_q, transaction_init, transaction_set, transaction_is_legal, counting, remove_entry, map,
}

-- `lru_remove_api`, with its assertion.
unfoldable pub remove : Lru → ℕ → Bool → Option Lru
remove l oblock remove_to_history =
    let (e?, n) = Nucleus.lookup l.nucleus oblock in
    e? >>= λ e. remove_entry (record l { nucleus = n }) e

-- `lru_insert_api`
unfoldable pub insert : Lru → ℕ → ℕ → Option Lru
insert l oblock cblock = Nucleus.insert_in_cache_at l.nucleus oblock cblock none >>= λ r.
    (let (e, n, filled) = r in some (record { nucleus = n; queues = Queue.push l.queues lru_q e }))

-- `lru_migrated_api`, with what `migrated_entry` asserts.
unfoldable pub migrated : Lru → ℕ → Option Lru
migrated l oblock =
    let (e?, n) = Nucleus.lookup l.nucleus oblock in
    e? >>= λ e. Pool.migrated_entry n.cache_pool n.mem e >>= λ r. some (record {
      nucleus = counting (record n { cache_pool = r.0; mem = r.1 }) inc_promotions;
      queues = Queue.push l.queues lru_q e;
    })

-- `lru_next_victim_api`
unfoldable pub next_victim : Lru → ℕ → Option (Operation × Option ℕ × Lru)
next_victim l oblock =
    let (l', lt) = transaction_set l (transaction_init oblock) in
    if transaction_is_legal l' lt
    then (if lt.hit
        then some (Operation.hit, none, l')
        else (if lt.evict
            then (Queue.peek l'.queues lru_q >>= λ e. some (Operation.replace, some e, l'))
            else some (Operation.new, none, l')))
    else some (Operation.fail, none, l')

-- `lru_init` where `mem_alloc` finds the memory, the cache pool at its address. There is no meta
-- pool.
unfoldable pub init : (ℕ → ℕ → ℕ) → Memory → ℕ → ℕ → Option Lru
init hash mem address cache_size =
    Nucleus.policy_init hash mem (Pool.create address cache_size) (Pool.create 0 0) cache_size 0
    >>= λ n. some (record { nucleus = n; queues = Queue.init no_queues lru_q })

-- The function pointers that `lru_init` sets.
abbrev pub as_policy : Policy
as_policy = record {
  State = Lru;
  map = map;
  remove = remove;
  insert = insert;
  migrated = migrated;
  cache_lookup = λ l o.
      let (e?, n) = Nucleus.default_cache_lookup l.nucleus o in (e?, record l { nucleus = n });
  meta_lookup = λ l o.
      let (e?, n) = Nucleus.default_meta_lookup l.nucleus o in (e?, record l { nucleus = n });
  cblock_lookup = λ l c. Nucleus.default_cblock_lookup l.nucleus c;
  remap = λ l o o'. Nucleus.default_remap l.nucleus o o' >>= λ n. some (record l { nucleus = n });
  get_stats = λ l stats. Nucleus.default_get_stats l.nucleus stats;
  set_time = λ l time. record l { nucleus = Nucleus.default_set_time l.nucleus time };
  residency = λ l. Nucleus.default_residency l.nucleus;
  cache_is_full = λ l. Nucleus.cache_is_full l.nucleus;
  infer_cblock = λ l e. Nucleus.default_infer_cblock l.nucleus e;
  next_victim = next_victim;
  pool_is_full = λ l. Nucleus.cache_is_full l.nucleus;
}
