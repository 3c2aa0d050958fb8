-- ===== src/Lru/Valid.antt =====
-- src/algs/lru/lru_policy.c: when the queue of LRU and its pool agree.
use fomo.Base.{
  ℕ, ◌+◌, ◌≤◌, ◌<◌, ◌≡◌, ◌∷◌, true, false, Option, none, some, not, ◌&&◌, mem, mem-cons, length,
  length-subset, if◌then◌else◌, u32_mod, arith,
}
use fomo.Entry.Stats.{Stats}
use fomo.Queue.{in_queue}
use fomo.Queue.Order
use fomo.Nucleus.{Nucleus, lookup}
use fomo.Nucleus.Valid
use fomo.Nucleus.Valid.{in_cache_pool, in_meta_pool, live}
use fomo.Lru.{Lru, lru_q}

-- The queue of an entry: none for one that is free or on the move.
abbrev pub home : Nucleus → ℕ → Option ℕ
home n e = if live n e && not (n.mem.entry e).migrating then some lru_q else none

-- Each entry is in the queue unless it is on the move, and there are no entries beside the cache.
pub record IsValid (l : Lru) : Type 0 where
  pub nucleus : Valid.IsValid l.nucleus
  pub cached : Order.IsValid l.queues lru_q
  pub homes : (e : ℕ) → l.queues.parent e ≡ home l.nucleus e
  pub no_meta : (e : ℕ) → in_meta_pool l.nucleus e ≡ false
  pub two : 1 < l.nucleus.cache_pool.nr_entries

pub mem-cached :
    (l : Lru)
    → IsValid l
    → (e : ℕ)
    → mem e (l.queues.items lru_q) ≡ (
        in_cache_pool l.nucleus e
        && ((l.nucleus.mem.entry e).allocated && not (l.nucleus.mem.entry e).migrating))
unfolding in_queue
mem-cached l v e = ground (arith, v.cached.parent_in e, v.homes e, v.no_meta e)

pub cached_room :
    (l : Lru) (e : ℕ)
    → IsValid l
    → in_cache_pool l.nucleus e ≡ true
    → (l.nucleus.mem.entry e).allocated ≡ true
    → (l.nucleus.mem.entry e).migrating ≡ true
    → length (l.queues.items lru_q) + 1 < u32_mod
cached_room l e v i on moving =
    let many : length (e ∷ l.queues.items lru_q) ≤ length v.nucleus.cache.used =
      length-subset (e ∷ l.queues.items lru_q) v.nucleus.cache.used
        (ground (arith, mem-cached l v e), v.cached.distinct) v.nucleus.cache.used_distinct
        (λ a m. ground (
          arith,
          mem-cons a e (l.queues.items lru_q),
          mem-cached l v a,
          v.nucleus.cache.used_iff a,
          v.nucleus.cache.used_iff e,
        )) in
    omega (arith, v.nucleus.cache.count, v.nucleus.cache.small)

-- LRU after a lookup.
abbrev pub looked : Lru → ℕ → Lru
looked l o = record l { nucleus = (lookup l.nucleus o).1 }

pub looked-IsValid : (l : Lru) (o : ℕ) → IsValid l → IsValid (looked l o)
unfolding lookup
looked-IsValid l o v = record {
  nucleus = Valid.lookup-IsValid l.nucleus o v.nucleus;
  cached = v.cached;
  homes = v.homes;
  no_meta = v.no_meta;
  two = v.two;
}

pub counted-IsValid :
    (l : Lru) (stats : Stats)
    → IsValid l
    → IsValid (record l { nucleus = record l.nucleus { stats = stats } })
counted-IsValid l stats v = record {
  nucleus = Valid.restat-IsValid l.nucleus stats v.nucleus;
  cached = v.cached;
  homes = v.homes;
  no_meta = v.no_meta;
  two = v.two;
}
