-- ===== src/Lru/Parts.antt =====
-- src/algs/lru/lru_policy.c: the parts of an access.
use fomo.Base.{
  ℕ, ◌<◌, ◌≡◌, refl, ap, ◌∙◌, List, ◌∷◌, Bool, true, false, Option, none, some, not, ◌&&◌, ◌==◌,
  ◌>>=◌, mem-cons, length, length-remove, remove, if◌then◌else◌, Bool-cases, inl, inr, uncons_some,
  arith, ==_refl,
}
use fomo.Entry.{Memory}
use fomo.Entry.Stats.{Stats, inc_demotions}
use fomo.Pool
use fomo.Queue
use fomo.Queue.{Queues, pop, peek}
use fomo.Queue.Order
use fomo.Queue.Order.{
  push-IsValid, take_out-IsValid, parent-push, parent-take_out, peek-first, pop-some, take_out_lone,
  items-take_out_any,
}
use fomo.Nucleus
use fomo.Nucleus.{Nucleus, Result, Operation, cache_is_full, lookup}
use fomo.Nucleus.Valid
use fomo.Nucleus.Valid.{
  in_cache_pool, in_meta_pool, live, oblock_of, restat-IsValid, lookup-IsValid, lookup-live,
}
use fomo.Nucleus.Insert.{
  Adds, infer_cblock_some, stocked, stocked-Adds, stocked-IsValid, insert_in_cache-stocked,
}
use fomo.Nucleus.Remove.{
  unstocked, remove_entry-unstocked, unstocked-Drops, unstocked-IsValid, started, started-IsValid,
  migrating_entry-moved, live-started, oblock_of-started, migrating-started,
}
use fomo.Lru.{Lru, lru_q, remove_entry, evict, stock, renew}
use fomo.Lru.Valid.{IsValid, mem-cached}

-- The statistics after the removal of an entry: it is a demotion unless the entry is on the move.
abbrev pub demoted : Lru → ℕ → Stats
demoted l e =
    if (l.nucleus.mem.entry e).migrating then l.nucleus.stats else inc_demotions l.nucleus.stats

-- What the removal of an entry changes.
pub record Removes (l l' : Lru) (e : ℕ) : Type 0 where
  pub valid : IsValid l'
  pub drops_live : (a : ℕ) → live l'.nucleus a ≡ (live l.nucleus a && not (a == e))
  pub drops_oblock : (a : ℕ) → oblock_of l'.nucleus a ≡ oblock_of l.nucleus a
  pub makes_room : cache_is_full l'.nucleus ≡ false
  pub spares : (a : ℕ) → (a == e) ≡ false → l'.nucleus.mem.entry a ≡ l.nucleus.mem.entry a
  pub left : l'.queues.items lru_q ≡ remove e (l.queues.items lru_q)
  pub counted : l'.nucleus.stats ≡ demoted l e
  pub same_time : l'.nucleus.time ≡ l.nucleus.time

module _ (l : Lru) (e : ℕ) (v : IsValid l) (inside : in_cache_pool l.nucleus e ≡ true)
    (on : (l.nucleus.mem.entry e).allocated ≡ true) where
  module _ (stats : Stats) where
    restated : Nucleus
    restated = record l.nucleus { stats = stats }

    restated-IsValid : Valid.IsValid restated
    unfolding restated
    restated-IsValid = restat-IsValid l.nucleus stats v.nucleus

    removed : Lru
    removed = record { nucleus = unstocked restated e; queues = Queue.take_out l.queues e }

    removed-Removes : stats ≡ demoted l e → Removes l removed e
    unfolding removed unstocked restated cache_is_full Pool.empty
    removed-Removes counts =
        let d = unstocked-Drops restated e restated-IsValid inside on in
        record {
          valid = record {
            nucleus = unstocked-IsValid restated e restated-IsValid inside on;
            cached = take_out-IsValid l.queues lru_q e v.cached;
            homes = λ a.
                ground (
                  arith,
                  parent-take_out l.queues e a,
                  v.homes a,
                  d.drops_live a,
                  d.drops_moving a,
                );
            no_meta = λ a. ground (arith, v.no_meta a, d.drops_meta a);
            two = v.two;
          };
          drops_live = d.drops_live;
          drops_oblock = d.drops_oblock;
          makes_room = refl;
          spares = d.spares;
          left = items-take_out_any l.queues lru_q e v.cached;
          counted = counts;
          same_time = d.same_time;
        }

    remove_entry-restated : Nucleus.remove_entry restated e ≡ some (unstocked restated e)
    unfolding restated
    remove_entry-restated = remove_entry-unstocked restated e restated-IsValid inside on

  -- `lru_remove_entry` of an entry that is in use succeeds.
  pub remove_entry-Removes : (l' : Lru) × (remove_entry l e ≡ some l') × Removes l l' e
  unfolding remove_entry restated removed
  remove_entry-Removes = elim (Bool-cases (l.nucleus.mem.entry e).migrating) [
    | inl moving ↦ (
      removed l.nucleus.stats,
      rw
          (
            moving,
            remove_entry-restated l.nucleus.stats,
            take_out_lone l.queues e (ground (arith, v.homes e)),
          )
          refl,
      removed-Removes l.nucleus.stats (rw moving refl),
    )
    | inr still ↦ (
      removed (inc_demotions l.nucleus.stats),
      rw (still, remove_entry-restated (inc_demotions l.nucleus.stats)) refl,
      removed-Removes (inc_demotions l.nucleus.stats) (rw still refl),
    )
  ]

-- An entry that has been taken out of the queue is removed in the same way.
remove_entry-popped :
    (l : Lru) (e : ℕ)
    → (l.nucleus.mem.entry e).migrating ≡ false
    → remove_entry (record l { queues = Queue.take_out l.queues e }) e ≡ remove_entry l e
unfolding remove_entry
remove_entry-popped l e still =
    let gone : (Queue.take_out l.queues e).parent e ≡ none =
      ground (arith, parent-take_out l.queues e e, ==_refl e) in
    rw (still, take_out_lone (Queue.take_out l.queues e) e gone) refl

-- What `lru_evict` does with what it pops.
noted : Lru → Result → Option ℕ × Queues → Option (Lru × Result)
noted l result r = r.0 >>= λ e. remove_entry (record l { queues = r.1 }) e >>= λ l'. some (
  l',
  record result {
    old_oblock = (l.nucleus.mem.entry e).oblock;
    dirty_eviction = (l.nucleus.mem.entry e).dirty;
  },
)

evict-first :
    (l l' : Lru) (e : ℕ) (result : Result)
    → peek l.queues lru_q ≡ some e
    → remove_entry (record l { queues = Queue.take_out l.queues e }) e ≡ some l'
    → evict l result
      ≡ some (
        l',
        record result {
          old_oblock = oblock_of l.nucleus e;
          dirty_eviction = (l.nucleus.mem.entry e).dirty;
        },
      )
unfolding evict noted
evict-first l l' e result first removes =
    ap (noted l result) (pop-some l.queues lru_q first) ∙ rw (removes, noted) refl

-- `lru_evict` of a queue that is not empty removes the first entry.
pub evict_cached :
    (l : Lru) (result : Result)
    → IsValid l
    → 0 < l.queues.len lru_q
    → (e : ℕ) × (l' : Lru) × (evict l result
        ≡ some (
          l',
          record result {
            old_oblock = oblock_of l.nucleus e;
            dirty_eviction = (l.nucleus.mem.entry e).dirty;
          },
        ))
      × (peek l.queues lru_q ≡ some e)
      × (live l.nucleus e ≡ true)
      × Removes l l' e
evict_cached l result v some_in =
    let (e, first, there) = peek-first l.queues lru_q (omega (arith, v.cached.len_eq)) in
    let on = mem-cached l v e in
    let (l', removes, r) = remove_entry-Removes l e v (ground arith) (ground arith) in
    (
      e,
      l',
      evict-first l l' e result first (remove_entry-popped l e (ground arith) ∙ removes),
      first,
      ground arith,
      r,
    )

-- What an insertion or a hit leaves: LRU with the block in the cache.
pub record Holds (l' : Lru) (o : ℕ) : Type 0 where
  pub valid : IsValid l'
  pub holder : ℕ
  pub holder_live : live l'.nucleus holder ≡ true
  pub holder_block : oblock_of l'.nucleus holder ≡ o

stock_calls :
    (l : Lru) (o e : ℕ) (n : Nucleus) (p : Pool.Pool) (m : Memory) (result result' : Result)
    → Nucleus.insert_in_cache l.nucleus o (some result) ≡ some (e, n, some result')
    → Pool.migrating_entry n.cache_pool n.mem e ≡ some (p, m)
    → stock l o result ≡ some (record l { nucleus = record n { cache_pool = p; mem = m } }, result')
unfolding stock
stock_calls l o e n p m result result' inserted moved = rw (inserted, moved) refl

module _ (l : Lru) (o : ℕ) (v : IsValid l)
    (new : (a : ℕ) → live l.nucleus a ≡ true → (oblock_of l.nucleus a == o) ≡ false) where
  stock_step :
      (e : ℕ) (rest : List ℕ)
      → l.nucleus.cache_pool.free ≡ e ∷ rest
      → Holds (record l { nucleus = started (stocked l.nucleus e o rest) e }) o
  unfolding started stocked
  stock_step e rest first =
      let n1 = stocked l.nucleus e o rest in
      let a1 : Adds l.nucleus n1 e o = stocked-Adds l.nucleus o e rest v.nucleus new first in
      let inside : (in_cache_pool l.nucleus e ≡ true)
          × ((l.nucleus.mem.entry e).allocated ≡ false) =
        ground (arith, v.nucleus.cache.free_iff e, first, mem-cons e e rest, ==_refl e) in
      let still : (l.nucleus.mem.entry e).migrating ≡ false =
        ground (arith, v.nucleus.cache.moving_used e) in
      record {
        valid = record {
          nucleus =
              started-IsValid n1 e (stocked-IsValid l.nucleus o e rest v.nucleus new first)
                (ground (arith, a1.adds_cache e)) (ground (arith, a1.adds_live e, a1.adds_meta e))
                (ground (arith, a1.adds_moving e));
          cached = v.cached;
          homes = λ a. ground (
            arith,
            v.homes a,
            a1.adds_live a,
            a1.adds_moving a,
            live-started n1 e a,
            migrating-started n1 e a,
            inside,
            v.no_meta e,
          );
          no_meta = λ a. ground (arith, v.no_meta a, a1.adds_meta a);
          two = v.two;
        };
        holder = e;
        holder_live = ground (arith, a1.adds_live e, live-started n1 e e, ==_refl e);
        holder_block = ground (arith, a1.adds_oblock e, oblock_of-started n1 e e, ==_refl e);
      }

  -- A block that is not known comes into a cache with room.
  pub stock-Holds :
      (result : Result)
      → cache_is_full l.nucleus ≡ false
      → (l' : Lru) × (c : ℕ) × (stock l o result ≡ some (l', record result { cblock = c }))
        × Holds l' o
  unfolding cache_is_full Pool.empty started stocked
  stock-Holds result room =
      let (e, rest, first) = uncons_some l.nucleus.cache_pool.free room in
      let n1 = stocked l.nucleus e o rest in
      let a1 : Adds l.nucleus n1 e o = stocked-Adds l.nucleus o e rest v.nucleus new first in
      let inside : (in_cache_pool l.nucleus e ≡ true)
          × ((l.nucleus.mem.entry e).allocated ≡ false) =
        ground (arith, v.nucleus.cache.free_iff e, first, mem-cons e e rest, ==_refl e) in
      let still : (l.nucleus.mem.entry e).migrating ≡ false =
        ground (arith, v.nucleus.cache.moving_used e) in
      let (c, inserted) =
        insert_in_cache-stocked l.nucleus o e rest v.nucleus new first result v.two in
      let valid = stocked-IsValid l.nucleus o e rest v.nucleus new first in
      (
        _,
        c,
        stock_calls l o e n1 (started n1 e).cache_pool (started n1 e).mem result
            (record result { cblock = c }) inserted
            (migrating_entry-moved n1.cache_pool n1.mem e valid.cache
              (ground (arith, a1.adds_cache e))
              (ground (arith, a1.adds_live e, a1.adds_meta e, v.no_meta e, ==_refl e))
              (ground (arith, a1.adds_moving e))),
        stock_step e rest first,
      )

module _ (l : Lru) (o e : ℕ) (v : IsValid l) (on : live l.nucleus e ≡ true)
    (block : oblock_of l.nucleus e ≡ o) where
  bumped : Bool → Queues
  bumped moving = if moving then l.queues else Queue.push (Queue.take_out l.queues e) lru_q e

  bumped_fields :
      Order.IsValid (bumped (l.nucleus.mem.entry e).migrating) lru_q
      × ((a : ℕ) → (bumped (l.nucleus.mem.entry e).migrating).parent a ≡ l.queues.parent a)
  unfolding bumped
  bumped_fields = elim (Bool-cases (l.nucleus.mem.entry e).migrating) [
    | inl moving ↦ rw moving (v.cached, (λ a. refl))
    | inr still ↦ rw still (
      push-IsValid (Queue.take_out l.queues e) lru_q e (take_out-IsValid l.queues lru_q e v.cached)
          (ground (arith, parent-take_out l.queues e e, ==_refl e))
          (ground (
            arith,
            ap length (items-take_out_any l.queues lru_q e v.cached),
            length-remove e (l.queues.items lru_q) v.cached.distinct,
            mem-cached l v e,
            v.no_meta e,
            v.cached.small,
          )),
      (λ a. ground (
        arith,
        parent-push (Queue.take_out l.queues e) lru_q e a,
        parent-take_out l.queues e a,
        v.homes e,
      )),
    )
  ]

  -- The block of a cached entry is renewed.
  pub renew-Holds :
      (result : Result)
      → (l' : Lru) × (c : ℕ) × (renew l o result ≡ some (l', record result { cblock = c }))
        × Holds l' o
  unfolding renew bumped lookup
  renew-Holds result =
      let n = (lookup l.nucleus o).1 in
      let inside : in_cache_pool l.nucleus e ≡ true = ground (arith, v.no_meta e) in
      let (c, index) = infer_cblock_some l.nucleus.cache_pool e v.two inside in
      let (q, parents) = bumped_fields in
      (
        record { nucleus = n; queues = bumped (l.nucleus.mem.entry e).migrating },
        c,
        rw (lookup-live l.nucleus o e v.nucleus on block, index) refl,
        record {
          valid = record {
            nucleus = lookup-IsValid l.nucleus o v.nucleus;
            cached = q;
            homes = λ a. ground (arith, parents a, v.homes a);
            no_meta = v.no_meta;
            two = v.two;
          };
          holder = e;
          holder_live = on;
          holder_block = block;
        },
      )
