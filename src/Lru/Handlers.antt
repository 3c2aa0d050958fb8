-- ===== src/Lru/Handlers.antt =====
-- src/algs/lru/lru_policy.c: the removal of a block and the end of a migration on a valid LRU.
use fomo.Base.{
  ℕ, ◌≡◌, refl, Bool, true, false, none, some, ◌==◌, ◌&&◌, not, arith, ==_refl, ◌++◌, ◌∷◌, [],
  remove,
}
use fomo.Entry.Stats.{inc_promotions}
use fomo.Pool.{in_pool}
use fomo.Queue
use fomo.Queue.Order.{push-IsValid, parent-push, items-push}
use fomo.Nucleus.{lookup, cache_is_full}
use fomo.Nucleus.Valid.{in_cache_pool, live, oblock_of, lookup-live, restat-IsValid}
use fomo.Nucleus.Remove.{
  arrived, arrived-IsValid, migrated_entry-settled, live-arrived, migrating-arrived,
  in_cache_pool-arrived,
}
use fomo.Lru.{Lru, lru_q, counting}
use fomo.Lru.Api
use fomo.Lru.Valid.{IsValid, cached_room, looked, looked-IsValid}
use fomo.Lru.Parts.{demoted, remove_entry-Removes}

module _ (l : Lru) (o e : ℕ) (v : IsValid l) (on : live l.nucleus e ≡ true)
    (block : oblock_of l.nucleus e ≡ o) where
  -- On a valid LRU, for a block that it knows, `lru_remove_api` succeeds, leaves LRU valid and the
  -- cache with room: the entry of the block is not live any more, the queue keeps the others in
  -- their order, every other entry keeps all its fields, and the time is as it was. One demotion
  -- is counted unless the entry was on the move.
  pub lru_remove-IsValid :
      (to_history : Bool)
      → (l' : Lru) × (Api.remove l o to_history ≡ some l')
        × IsValid l'
        × (cache_is_full l'.nucleus ≡ false)
        × ((a : ℕ) → live l'.nucleus a ≡ (live l.nucleus a && not (a == e)))
        × (l'.queues.items lru_q ≡ remove e (l.queues.items lru_q))
        × ((a : ℕ) → (a == e) ≡ false → l'.nucleus.mem.entry a ≡ l.nucleus.mem.entry a)
        × (l'.nucleus.stats ≡ demoted l e)
        × (l'.nucleus.time ≡ l.nucleus.time)
  unfolding Api.remove lookup in_pool
  lru_remove-IsValid to_history =
      let w = looked-IsValid l o v in
      let (l', removed, r) =
        remove_entry-Removes (looked l o) e w (ground (arith, v.no_meta e)) (ground arith) in
      (
        l',
        rw (lookup-live l.nucleus o e v.nucleus on block) removed,
        r.valid,
        r.makes_room,
        r.drops_live,
        r.left,
        r.spares,
        r.counted,
        r.same_time,
      )

  -- On a valid LRU, for a block on the move, `lru_migrated_api` succeeds and leaves LRU valid: the
  -- entry is not on the move any more and is the last of the queue.
  pub lru_migrated-IsValid :
      (l.nucleus.mem.entry e).migrating ≡ true
      → (l' : Lru) × (Api.migrated l o ≡ some l')
        × IsValid l'
        × ((l'.nucleus.mem.entry e).migrating ≡ false)
        × (l'.queues.items lru_q ≡ l.queues.items lru_q ++ e ∷ [])
  unfolding Api.migrated lookup in_pool arrived
  lru_migrated-IsValid moving =
      let w = looked-IsValid l o v in
      let n = (looked l o).nucleus in
      let q = Queue.push l.queues lru_q e in
      let inside : in_cache_pool l.nucleus e ≡ true = ground (arith, v.no_meta e) in
      let lone : l.queues.parent e ≡ none = ground (arith, v.homes e) in
      let l' : Lru = record { nucleus = counting (arrived n e) inc_promotions; queues = q } in
      (
        l',
        rw
            (
              lookup-live l.nucleus o e v.nucleus on block,
              migrated_entry-settled l.nucleus.cache_pool l.nucleus.mem e v.nucleus.cache inside
                  moving,
            )
            refl,
        record {
          nucleus =
              restat-IsValid (arrived n e) (inc_promotions n.stats)
                (arrived-IsValid n e w.nucleus inside moving);
          cached =
              push-IsValid l.queues lru_q e v.cached lone
                (cached_room l e v inside (ground arith) moving);
          homes = λ a. ground (
            arith,
            v.homes a,
            parent-push l.queues lru_q e a,
            live-arrived n e a,
            migrating-arrived n e a,
            in_cache_pool-arrived n e a,
          );
          no_meta = v.no_meta;
          two = v.two;
        },
        ground (arith, migrating-arrived n e e, ==_refl e),
        items-push l.queues lru_q e,
      )
