-- ===== src/Lru.antt =====
-- src/algs/lru/lru_policy.c and src/algs/lru/lru_policy_struct.h: LRU.
pub mod Api
pub mod Valid
pub mod Parts
pub mod Map
pub mod Handlers
pub mod Whole
use fomo.Base.{ℕ, Bool, true, false, Option, none, some, is_some, ltb, if◌then◌else◌, ◌>>=◌}
use fomo.Entry.Stats.{Stats, inc_ios, inc_hits, inc_misses, inc_demotions}
use fomo.Pool
use fomo.Queue
use fomo.Queue.{Queues}
use fomo.Nucleus
use fomo.Nucleus.{Nucleus, Result, Operation, note_write}

-- `struct lru_policy`, whose queue is the one of `queues` with the index `lru_q`.
pub record Lru : Type 0 where
  pub nucleus : Nucleus
  pub queues : Queues

abbrev pub lru_q : ℕ
lru_q = 0

-- `struct lru_transaction`
pub record Transaction : Type 0 where
  pub oblock : ℕ
  pub evict : Bool
  pub hit : Bool

-- `lru_transaction_init`
unfoldable pub transaction_init : ℕ → Transaction
transaction_init oblock = record { oblock = oblock; evict = false; hit = false }

-- `lru_transaction_set`
unfoldable pub transaction_set : Lru → Transaction → Lru × Transaction
transaction_set l lt =
    let (e?, n) = Nucleus.lookup l.nucleus lt.oblock in
    (
      record l { nucleus = n },
      if is_some e?
          then record lt { hit = true }
          else record lt { evict = Nucleus.cache_is_full n },
    )

-- `lru_transaction_is_legal`
unfoldable pub transaction_is_legal : Lru → Transaction → Bool
transaction_is_legal l lt = if lt.evict then ltb 0 (l.queues.len lru_q) else true

abbrev pub counting : Nucleus → (Stats → Stats) → Nucleus
counting n inc = record n { stats = inc n.stats }

-- `lru_remove_entry`
unfoldable pub remove_entry : Lru → ℕ → Option Lru
remove_entry l e =
    let unlinked : Lru = if (l.nucleus.mem.entry e).migrating then l else record {
      nucleus = counting l.nucleus inc_demotions;
      queues = Queue.take_out l.queues e;
    } in
    Nucleus.remove_entry unlinked.nucleus e >>= λ n. some (record unlinked { nucleus = n })

-- `lru_evict`
unfoldable pub evict : Lru → Result → Option (Lru × Result)
evict l result =
    let (e?, q) = Queue.pop l.queues lru_q in
    e? >>= λ e. remove_entry (record l { queues = q }) e >>= λ l'.
    (let demoted = l.nucleus.mem.entry e in
      some (l', record result { old_oblock = demoted.oblock; dirty_eviction = demoted.dirty }))

-- `lru_insert`
unfoldable pub stock : Lru → ℕ → Result → Option (Lru × Result)
stock l oblock result = Nucleus.insert_in_cache l.nucleus oblock (some result) >>= λ r.
    (let (e, n, result?) = r in
      Pool.migrating_entry n.cache_pool n.mem e >>= λ c. result? >>= λ result'.
      some (record l { nucleus = record n { cache_pool = c.0; mem = c.1 } }, result'))

-- `lru_hit`
unfoldable pub renew : Lru → ℕ → Result → Option (Lru × Result)
renew l oblock result =
    let (e?, n) = Nucleus.lookup l.nucleus oblock in
    e? >>= λ e. Pool.infer_cblock n.cache_pool e >>= λ c. some (
      record {
        nucleus = n;
        queues =
            if (n.mem.entry e).migrating
            then l.queues
            else Queue.push (Queue.take_out l.queues e) lru_q e;
      },
      record result { cblock = c },
    )

-- The eviction in `lru_transaction_commit`.
unfoldable pub make_room : Lru → Bool → Result → Option (Lru × Result)
make_room l evicts result =
    if evicts then evict l (record result { op = Operation.replace }) else some (l, result)

-- `lru_transaction_commit`
unfoldable pub transaction_commit : Lru → Transaction → Result → Option (Lru × Result)
transaction_commit l lt result =
    if lt.hit
    then (renew l lt.oblock (record result { op = Operation.hit }) >>= λ r.
        some (record r.0 { nucleus = counting r.0.nucleus inc_hits }, r.1))
    else (make_room l lt.evict (record result { op = Operation.new }) >>= λ m.
        stock m.0 lt.oblock m.1 >>= λ r.
        some (record r.0 { nucleus = counting r.0.nucleus inc_misses }, r.1))

-- `lru_map_api`
unfoldable pub map : Lru → ℕ → Bool → Result → Option (Lru × Result)
map l oblock write result =
    let (e?, n) = Nucleus.lookup l.nucleus oblock in
    let (l', lt) = transaction_set (record l { nucleus = n }) (transaction_init oblock) in
    if transaction_is_legal l' lt
    then (transaction_commit l' lt result >>= λ r.
        some (record r.0 { nucleus = note_write (counting r.0.nucleus inc_ios) oblock write }, r.1))
    else some (l', record result { op = Operation.fail })
