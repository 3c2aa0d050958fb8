-- ===== src/Larc/Handlers.antt =====
-- src/algs/larc/larc_policy.c: the removal of a block and the end of a migration on a valid LARC.
use fomo.Base.{
  ℕ, ◌≡◌, refl, ap, Bool, true, false, none, some, ◌==◌, ◌&&◌, not, arith, ==_refl, remove, length,
  length-remove-le, ◌++◌, ◌∷◌, [],
}
use fomo.Entry.Stats.{inc_promotions}
use fomo.Pool.{in_pool}
use fomo.Queue
use fomo.Queue.Order.{push-IsValid, push_other-IsValid, parent-push, items-push, items-push_other}
use fomo.Nucleus.{lookup}
use fomo.Nucleus.Valid.{in_cache_pool, live, oblock_of, lookup-live, restat-IsValid}
use fomo.Nucleus.Remove.{
  arrived, arrived-IsValid, migrated_entry-settled, live-arrived, migrating-arrived,
  in_cache_pool-arrived,
}
use fomo.Larc.{Larc, q_list, g_list}
use fomo.Larc.Access.{with_stats}
use fomo.Larc.Api
use fomo.Larc.Valid.{IsValid, cached_room}
use fomo.Larc.Remove.{demoted, remove_entry-Removes}
use fomo.Larc.Commit.{looked, looked-IsValid}

module _ (l : Larc) (o e : ℕ) (v : IsValid l) (on : live l.nucleus e ≡ true)
    (block : oblock_of l.nucleus e ≡ o) where
  -- On a valid LARC, for a block that it knows, in the cache or as a ghost, `larc_remove_api`
  -- succeeds and leaves LARC valid: the entry of the block is not live any more and has left its
  -- queue, the two queues keep the others in their order, every other entry keeps all its fields,
  -- and the time and the size of the ghost queue are as they were. One demotion is counted if the
  -- block was in the cache and not on the move. All this holds of a removal to the history, too.
  pub larc_remove-IsValid :
      (to_history : Bool)
      → (l' : Larc) × (Api.remove l o to_history ≡ some l')
        × IsValid l'
        × ((a : ℕ) → live l'.nucleus a ≡ (live l.nucleus a && not (a == e)))
        × (l'.queues.items q_list ≡ remove e (l.queues.items q_list))
        × (l'.queues.items g_list ≡ remove e (l.queues.items g_list))
        × ((a : ℕ) → (a == e) ≡ false → l'.nucleus.mem.entry a ≡ l.nucleus.mem.entry a)
        × (l'.nucleus.stats ≡ demoted l e)
        × (l'.nucleus.time ≡ l.nucleus.time)
        × (l'.g_size ≡ l.g_size)
  unfolding Api.remove lookup in_pool
  larc_remove-IsValid to_history =
      let w = looked-IsValid l o v in
      let (l', removed, r) = remove_entry-Removes (looked l o) e w.placed on in
      (
        l',
        rw (lookup-live l.nucleus o e v.placed.nucleus on block) removed,
        record {
          placed = r.placed;
          short = ground (
            arith,
            v.short,
            ap length r.ghosts_left,
            length-remove-le e (l.queues.items g_list),
            r.same_size,
          );
        },
        r.drops.drops_live,
        r.cached_left,
        r.ghosts_left,
        r.drops.spares,
        r.counted,
        r.drops.same_time,
        r.same_g_size,
      )

  -- On a valid LARC, for a cached block on the move, `larc_migrated_api` succeeds and leaves LARC
  -- valid: the entry is not on the move any more and is the last of the cache's queue.
  pub larc_migrated-IsValid :
      in_cache_pool l.nucleus e ≡ true
      → (l.nucleus.mem.entry e).migrating ≡ true
      → (l' : Larc) × (Api.migrated l o ≡ some l')
        × IsValid l'
        × ((l'.nucleus.mem.entry e).migrating ≡ false)
        × (l'.queues.items q_list ≡ l.queues.items q_list ++ e ∷ [])
  unfolding Api.migrated lookup in_pool arrived
  larc_migrated-IsValid inside moving =
      let w = looked-IsValid l o v in
      let n = (looked l o).nucleus in
      let q = Queue.push l.queues q_list e in
      let lone : l.queues.parent e ≡ none = ground (arith, v.placed.homes e) in
      let l' : Larc = with_stats (record l { nucleus = arrived n e; queues = q }) inc_promotions in
      (
        l',
        rw
            (
              lookup-live l.nucleus o e v.placed.nucleus on block,
              migrated_entry-settled l.nucleus.cache_pool l.nucleus.mem e v.placed.nucleus.cache
                  inside moving,
            )
            refl,
        record {
          placed = record {
            nucleus =
                restat-IsValid (arrived n e) (inc_promotions n.stats)
                  (arrived-IsValid n e w.placed.nucleus inside moving);
            cached =
                push-IsValid l.queues q_list e v.placed.cached lone
                  (cached_room l e v.placed inside (ground arith) moving);
            ghosts = push_other-IsValid l.queues g_list q_list e refl v.placed.ghosts lone;
            homes = λ a. ground (
              arith,
              v.placed.homes a,
              parent-push l.queues q_list e a,
              live-arrived n e a,
              migrating-arrived n e a,
              in_cache_pool-arrived n e a,
            );
            still = λ a i.
                ground (arith, v.placed.still a, migrating-arrived n e a, v.placed.nucleus.apart e);
            sized = v.placed.sized;
            room = v.placed.room;
            two = v.placed.two;
          };
          short =
              ground (arith, v.short, ap length (items-push_other l.queues g_list q_list e refl));
        },
        ground (arith, migrating-arrived n e e, ==_refl e),
        items-push l.queues q_list e,
      )
