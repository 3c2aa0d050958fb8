-- ===== src/Larc/Insert.antt =====
-- src/algs/larc/larc_policy.c: the insertion of a block in the cache or in the ghost queue
-- during an access.
use fomo.Base.{
  ℕ, ◌+◌, ◌*◌, ◌/◌, ◌≤◌, ◌<◌, ◌≡◌, refl, ap, ◌∙◌, List, ◌∷◌, Bool, true, false, none, some, ◌==◌,
  mem-cons, length, arith, uncons_some, uncons, ==_refl, length-subset, length-snoc,
}
use fomo.Entry.{Memory}
use fomo.Entry.Stats.{inc_filters, inc_misses}
use fomo.Pool
use fomo.Queue
use fomo.Queue.{Queues, in_queue}
use fomo.Queue.Order.{push-IsValid, push_other-IsValid, parent-push, items-push}
use fomo.Nucleus
use fomo.Nucleus.{Nucleus, Result, Operation, cache_is_full, lookup}
use fomo.Nucleus.Valid
use fomo.Nucleus.Valid.{
  in_cache_pool, in_meta_pool, live, oblock_of, restat-IsValid, lookup_found, lookup-live,
}
use fomo.Nucleus.Insert.{
  Adds, stocked, shelved, stocked-Adds, stocked-IsValid, shelved-Adds, shelved-IsValid,
  insert_in_cache-stocked, insert_in_meta-shelved,
}
use fomo.Nucleus.Remove.{
  started, started-IsValid, migrating_entry-moved, live-started, in_cache_pool-started,
  oblock_of-started, migrating-started,
}
use fomo.Larc.{Larc, q_list, g_list}
use fomo.Larc.Access.{with_stats, stock, shelve}
use fomo.Larc.Valid.{IsPlaced, mem-ghosts}

-- What the third step of an access leaves: LARC with the block in one of the pools.
pub record Holds (l l' : Larc) (o : ℕ) (cached : Bool) : Type 0 where
  pub placed : IsPlaced l'
  pub same_size : l'.nucleus.meta_size ≡ l.nucleus.meta_size
  pub holder : ℕ
  pub holder_live : live l'.nucleus holder ≡ true
  pub holder_block : oblock_of l'.nucleus holder ≡ o
  pub holder_pool : in_cache_pool l'.nucleus holder ≡ cached

-- The insertion in the cache, from what its two calls return.
stock_calls :
    (l : Larc) (o e : ℕ) (n : Nucleus) (p : Pool.Pool) (m : Memory) (result result' : Result)
    → Nucleus.insert_in_cache l.nucleus o (some result) ≡ some (e, n, some result')
    → Pool.migrating_entry n.cache_pool n.mem e ≡ some (p, m)
    → (m.entry e).migrating ≡ true
    → stock l o result
      ≡ some (
        with_stats (record l { nucleus = record n { cache_pool = p; mem = m } }) inc_misses,
        result',
      )
unfolding stock
stock_calls l o e n p m result result' inserted moved moving = rw (inserted, moved, moving) refl

module _ (l : Larc) (o : ℕ) (v : IsPlaced l)
    (new : (a : ℕ) → live l.nucleus a ≡ true → (oblock_of l.nucleus a == o) ≡ false) where
  stock_step :
      (e : ℕ) (rest : List ℕ)
      → l.nucleus.cache_pool.free ≡ e ∷ rest
      → Holds l
          (record l {
            nucleus = record (started (stocked l.nucleus e o rest) e) {
              stats = inc_misses l.nucleus.stats;
            };
          })
          o
          true
  unfolding started stocked
  stock_step e rest first =
      let n1 = stocked l.nucleus e o rest in
      let a1 : Adds l.nucleus n1 e o = stocked-Adds l.nucleus o e rest v.nucleus new first in
      let inside : (in_cache_pool l.nucleus e ≡ true)
          × ((l.nucleus.mem.entry e).allocated ≡ false) =
        ground (arith, v.nucleus.cache.free_iff e, first, mem-cons e e rest, ==_refl e) in
      let still : (l.nucleus.mem.entry e).migrating ≡ false =
        ground (arith, v.nucleus.cache.moving_used e) in
      let valid : Valid.IsValid (started n1 e) =
        started-IsValid n1 e (stocked-IsValid l.nucleus o e rest v.nucleus new first)
          (ground (arith, a1.adds_cache e)) (ground (arith, a1.adds_live e, a1.adds_meta e))
          (ground (arith, a1.adds_moving e)) in
      record {
        placed = record {
          nucleus = restat-IsValid (started n1 e) (inc_misses l.nucleus.stats) valid;
          cached = v.cached;
          ghosts = v.ghosts;
          homes = λ a. ground (
            arith,
            v.homes a,
            a1.adds_live a,
            a1.adds_moving a,
            a1.adds_cache a,
            live-started n1 e a,
            in_cache_pool-started n1 e a,
            migrating-started n1 e a,
            inside,
            v.nucleus.apart e,
          );
          still = λ a i. ground (
            arith,
            v.still a,
            a1.adds_moving a,
            a1.adds_meta a,
            migrating-started n1 e a,
            v.nucleus.apart a,
            inside,
          );
          sized = v.sized;
          room = v.room;
          two = v.two;
        };
        same_size = refl;
        holder = e;
        holder_live = ground (arith, a1.adds_live e, live-started n1 e e, ==_refl e);
        holder_block = ground (arith, a1.adds_oblock e, oblock_of-started n1 e e, ==_refl e);
        holder_pool = ground (arith, a1.adds_cache e, in_cache_pool-started n1 e e);
      }

  -- A block that is not known comes into a cache with room.
  pub stock-Holds :
      (result : Result)
      → cache_is_full l.nucleus ≡ false
      → (l' : Larc) × (c : ℕ) × (stock l o result ≡ some (l', record result { cblock = c }))
        × Holds l l' o true
        × (l'.queues ≡ l.queues)
  unfolding cache_is_full Pool.empty started stocked
  stock-Holds result room =
      let (e, rest, first) = uncons_some l.nucleus.cache_pool.free room in
      let n1 = stocked l.nucleus e o rest in
      let a1 : Adds l.nucleus n1 e o = stocked-Adds l.nucleus o e rest v.nucleus new first in
      let inside : in_cache_pool l.nucleus e ≡ true =
        ground (arith, v.nucleus.cache.free_iff e, first, mem-cons e e rest, ==_refl e) in
      let still : (l.nucleus.mem.entry e).migrating ≡ false = ground (
        arith,
        v.nucleus.cache.moving_used e,
        v.nucleus.cache.free_iff e,
        first,
        mem-cons e e rest,
        ==_refl e,
      ) in
      let (c, inserted) =
        insert_in_cache-stocked l.nucleus o e rest v.nucleus new first result v.two in
      let valid = stocked-IsValid l.nucleus o e rest v.nucleus new first in
      (
        _,
        c,
        stock_calls l o e n1 (started n1 e).cache_pool (started n1 e).mem result
            (record result { cblock = c }) inserted
            (migrating_entry-moved n1.cache_pool n1.mem e valid.cache
              (ground (arith, a1.adds_cache e))
              (ground (
                arith,
                a1.adds_live e,
                a1.adds_meta e,
                a1.adds_cache e,
                v.nucleus.apart e,
                ==_refl e,
              ))
              (ground (arith, a1.adds_moving e)))
            (ground (arith, ==_refl e)),
        stock_step e rest first,
        refl,
      )

  -- There is an entry left for the ghost queue.
  shelf_room :
      length (l.queues.items g_list) ≤ 9 * l.nucleus.meta_size / 10
      → 0 < length l.nucleus.meta_pool.free
  shelf_room short =
      let few : length v.nucleus.meta.used ≤ length (l.queues.items g_list) =
        length-subset v.nucleus.meta.used (l.queues.items g_list) v.nucleus.meta.used_distinct
          v.ghosts.distinct (λ a m. ground (arith, mem-ghosts l v a, v.nucleus.meta.used_iff a)) in
      omega (arith, v.nucleus.meta.count, v.room, v.sized.ten)

  shelve_step :
      (e : ℕ) (rest : List ℕ)
      → l.nucleus.meta_pool.free ≡ e ∷ rest
      → length (l.queues.items g_list) ≤ 9 * l.nucleus.meta_size / 10
      → Holds l
          (with_stats
            (record l {
              nucleus = shelved l.nucleus e o rest;
              queues = Queue.push l.queues g_list e;
            })
            inc_filters)
          o
          false
  unfolding shelved
  shelve_step e rest first short =
      let n1 = shelved l.nucleus e o rest in
      let a1 : Adds l.nucleus n1 e o = shelved-Adds l.nucleus o e rest v.nucleus new first in
      let inside : (in_meta_pool l.nucleus e ≡ true) × ((l.nucleus.mem.entry e).allocated ≡ false) =
        ground (arith, v.nucleus.meta.free_iff e, first, mem-cons e e rest, ==_refl e) in
      let lone : l.queues.parent e ≡ none = ground (arith, v.homes e, inside) in
      record {
        placed = record {
          nucleus =
              restat-IsValid n1 (inc_filters l.nucleus.stats)
                (shelved-IsValid l.nucleus o e rest v.nucleus new first);
          cached = push_other-IsValid l.queues q_list g_list e refl v.cached lone;
          ghosts = push-IsValid l.queues g_list e v.ghosts lone (omega (arith, v.sized.word));
          homes = λ a. ground (
            arith,
            v.homes a,
            a1.adds_live a,
            a1.adds_moving a,
            a1.adds_cache a,
            parent-push l.queues g_list e a,
            inside,
            v.nucleus.apart e,
            v.still e,
          );
          still = λ a i. ground (arith, v.still a, a1.adds_moving a, a1.adds_meta a);
          sized = v.sized;
          room = v.room;
          two = v.two;
        };
        same_size = refl;
        holder = e;
        holder_live = ground (arith, a1.adds_live e, ==_refl e);
        holder_block = ground (arith, a1.adds_oblock e, ==_refl e);
        holder_pool = ground (arith, a1.adds_cache e, inside, v.nucleus.apart e);
      }

  -- A block that is not known comes into a ghost queue that is not too long.
  pub shelve-Holds :
      (result : Result)
      → length (l.queues.items g_list) ≤ 9 * l.nucleus.meta_size / 10
      → (l' : Larc) × (shelve l o result ≡ some (l', record result { op = Operation.filter }))
        × Holds l l' o false
        × (l'.g_size ≡ l.g_size)
        × (length (l'.queues.items g_list) ≡ length (l.queues.items g_list) + 1)
  unfolding shelve
  shelve-Holds result short =
      let (e, rest, first) = uncons l.nucleus.meta_pool.free (shelf_room short) in
      (
        _,
        rw (insert_in_meta-shelved l.nucleus o e rest v.nucleus new first) refl,
        shelve_step e rest first short,
        refl,
        ap length (items-push l.queues g_list e) ∙ length-snoc (l.queues.items g_list) e,
      )
