-- ===== src/Lfu/Api.antt =====
-- src/algs/lfu/lfu_policy.c: the other operations of LFU.
use fomo.Base.{ℕ, Bool, Option, none, some, if◌then◌else◌, ◌>>=◌}
use fomo.Entry.{Memory}
use fomo.Entry.Stats.{inc_promotions}
use fomo.Pool
use fomo.Heap
use fomo.Nucleus
use fomo.Nucleus.{Operation}
use fomo.Lfu.{
  Lfu, compare_less, transaction_set, transaction_is_legal, counting, remove_entry, stamp,
}

-- `lfu_remove_api`
unfoldable pub remove : Lfu → ℕ → Bool → Option Lfu
remove l oblock remove_to_history =
    let (e?, n) = Nucleus.lookup l.nucleus oblock in
    e? >>= λ e. remove_entry (record l { nucleus = n }) e

-- `lfu_insert_api`
unfoldable pub insert : Lfu → ℕ → ℕ → Option Lfu
insert l oblock cblock = Nucleus.insert_in_cache_at l.nucleus oblock cblock none >>= λ r.
    (let (e, n, filled) = r in
      let s = stamp (record l { nucleus = n }) e 1 in
      Heap.insert (compare_less s.nucleus.mem) s.heap e 1 >>= λ h. some (record s { heap = h }))

-- `lfu_migrated_api`, with what `migrated_entry` asserts.
unfoldable pub migrated : Lfu → ℕ → Option Lfu
migrated l oblock =
    let (e?, n) = Nucleus.lookup l.nucleus oblock in
    e? >>= λ e. Pool.migrated_entry n.cache_pool n.mem e >>= λ r.
    Heap.insert (compare_less r.1) l.heap e (l.heap.key e) >>= λ h. some (record {
      nucleus = counting (record n { cache_pool = r.0; mem = r.1 }) inc_promotions;
      heap = h;
    })

-- `lfu_next_victim_api`. It does not initialise `hit` and `evict` of its transaction, which hold
-- what the memory held: the first two arguments.
unfoldable pub next_victim : Bool → Bool → Lfu → ℕ → Option (Operation × Option ℕ × Lfu)
next_victim hit evict l oblock =
    let (l', lt) = transaction_set l (record { oblock = oblock; hit = hit; evict = evict }) in
    if transaction_is_legal l' lt
    then (if lt.evict
        then (Heap.min l'.heap >>= λ e. some (Operation.replace, some e, l'))
        else some (if lt.hit then Operation.hit else Operation.new, none, l'))
    else some (Operation.fail, none, l')

-- `lfu_init` where `mem_alloc` finds the memory, the cache pool at its address, with what the
-- heads of the entries hold. There is no meta pool.
unfoldable pub init : (ℕ → ℕ → ℕ) → Memory → (ℕ → ℕ) → (ℕ → ℕ) → ℕ → ℕ → Option Lfu
init hash mem key index address cache_size =
    Nucleus.policy_init hash mem (Pool.create address cache_size) (Pool.create 0 0) cache_size 0
    >>= λ n. some (record { nucleus = n; heap = Heap.init key index cache_size })
