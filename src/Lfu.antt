-- ===== src/Lfu.antt =====
-- src/algs/lfu/lfu_policy.c and src/algs/lfu/lfu_policy_struct.h: LFU.
pub mod Api
pub mod Order
use fomo.Base.{
  ℕ, ◌+◌, Bool, true, false, Option, none, some, is_some, ltb, leb, ◌==◌, if◌then◌else◌, ◌>>=◌,
  update, add32, sub32,
}
use fomo.Entry.{Memory}
use fomo.Entry.Stats.{Stats, inc_ios, inc_hits, inc_misses, inc_demotions}
use fomo.Pool
use fomo.Heap
use fomo.Heap.{Heap}
use fomo.Nucleus
use fomo.Nucleus.{Nucleus, Result, Operation, note_write}

-- `struct lfu_policy`. The head `lfu_list` of an entry has the address of the entry.
pub record Lfu : Type 0 where
  pub nucleus : Nucleus
  pub heap : Heap

-- `a - b` of two unsigned words as an `int`, when it is below 0.
unfoldable pub negative : ℕ → ℕ → Bool
negative a b = leb 2147483648 (sub32 a b)

-- `lfu_compare`, as `compare(a, b) < 0`.
unfoldable pub compare_less : Memory → (ℕ → ℕ) → ℕ → ℕ → Bool
compare_less mem key a b =
    if key a == key b
    then negative (mem.entry a).time (mem.entry b).time
    else negative (key a) (key b)

-- `struct lfu_transaction`
pub record Transaction : Type 0 where
  pub oblock : ℕ
  pub hit : Bool
  pub evict : Bool

-- `lfu_transaction_init`
unfoldable pub transaction_init : ℕ → Transaction
transaction_init oblock = record { oblock = oblock; hit = false; evict = false }

-- `lfu_transaction_set`
unfoldable pub transaction_set : Lfu → Transaction → Lfu × Transaction
transaction_set l lt =
    let (e?, n) = Nucleus.lookup l.nucleus lt.oblock in
    (
      record l { nucleus = n },
      if is_some e?
          then record lt { hit = true }
          else (if Nucleus.cache_is_full n then record lt { evict = true } else lt),
    )

-- `lfu_transaction_is_legal`
unfoldable pub transaction_is_legal : Lfu → Transaction → Bool
transaction_is_legal l lt = if lt.evict then ltb 0 l.heap.size else true

abbrev pub counting : Nucleus → (Stats → Stats) → Nucleus
counting n inc = record n { stats = inc n.stats }

-- `lfu_remove_entry`
unfoldable pub remove_entry : Lfu → ℕ → Option Lfu
remove_entry l e =
    let deleted : Option Lfu = Heap.delete (compare_less l.nucleus.mem) l.heap e >>= λ h.
    some (record { nucleus = counting l.nucleus inc_demotions; heap = h }) in
    let unlinked : Option Lfu = if (l.nucleus.mem.entry e).migrating then some l else deleted in
    unlinked >>= λ u. Nucleus.remove_entry u.nucleus e >>= λ n. some (record u { nucleus = n })

-- `e->time = cn->time;` and the key of the entry.
unfoldable pub stamp : Lfu → ℕ → ℕ → Lfu
stamp l e key =
    let mem = l.nucleus.mem in
    record {
      nucleus = record l.nucleus {
        mem = record mem {
          entry = update mem.entry e (record (mem.entry e) { time = l.nucleus.time });
        };
      };
      heap = record l.heap { key = update l.heap.key e key };
    }

-- The eviction in `lfu_transaction_commit`.
unfoldable pub make_room : Lfu → Bool → Result → Option (Lfu × Result)
make_room l evicts result =
    if evicts
    then (Heap.min l.heap >>= λ e. remove_entry l e >>= λ l'.
        (let demoted = l.nucleus.mem.entry e in
          some (
            l',
            record result {
              old_oblock = demoted.oblock;
              dirty_eviction = demoted.dirty;
              op = Operation.replace;
            },
          )))
    else some (l, result)

-- A hit in `lfu_transaction_commit`.
unfoldable pub renew : Lfu → ℕ → Result → Option (Lfu × Result)
renew l oblock result =
    let (e?, n) = Nucleus.lookup l.nucleus oblock in
    e? >>= λ e. Pool.infer_cblock n.cache_pool e >>= λ c.
    (let s = stamp (record l { nucleus = n }) e (add32 (l.heap.key e) 1) in
      let sifted =
        Heap.heapify (compare_less s.nucleus.mem) (s.heap.size + 1) s.heap (s.heap.index e) in
      (if (n.mem.entry e).migrating then some s.heap else sifted) >>= λ h. some (
        record { nucleus = counting s.nucleus inc_hits; heap = h },
        record result { cblock = c; op = Operation.hit },
      ))

-- A miss in `lfu_transaction_commit`.
unfoldable pub stock : Lfu → ℕ → Result → Option (Lfu × Result)
stock l oblock result = Nucleus.insert_in_cache l.nucleus oblock (some result) >>= λ r.
    (let (e, n, result?) = r in
      let s = stamp (record l { nucleus = n }) e 1 in
      Pool.migrating_entry s.nucleus.cache_pool s.nucleus.mem e >>= λ c. result? >>= λ result'.
      some (
        record s {
          nucleus = counting (record s.nucleus { cache_pool = c.0; mem = c.1 }) inc_misses;
        },
        result',
      ))

-- `lfu_transaction_commit`
unfoldable pub transaction_commit : Lfu → Transaction → Result → Option (Lfu × Result)
transaction_commit l lt result =
    make_room l lt.evict (record result { op = Operation.new }) >>= λ m.
    if lt.hit then renew m.0 lt.oblock m.1 else stock m.0 lt.oblock m.1

-- `lfu_map_api`
unfoldable pub map : Lfu → ℕ → Bool → Result → Option (Lfu × Result)
map l oblock write result =
    let (e?, n) = Nucleus.lookup l.nucleus oblock in
    let (l', lt) = transaction_set (record l { nucleus = n }) (transaction_init oblock) in
    if transaction_is_legal l' lt
    then (transaction_commit l' lt result >>= λ r.
        some (record r.0 { nucleus = note_write (counting r.0.nucleus inc_ios) oblock write }, r.1))
    else some (l', record result { op = Operation.fail })
