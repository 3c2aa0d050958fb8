-- ===== src/Larc/Renew.antt =====
-- src/algs/larc/larc_policy.c: a hit in the cache renews the block.
use fomo.Base.{
  ℕ, ◌≡◌, refl, ap, ◌∙◌, Bool, true, false, some, if◌then◌else◌, Bool-cases, inl, inr, arith,
  ==_refl, length, remove_absent, length-remove,
}
use fomo.Entry.Stats.{inc_hits}
use fomo.Queue
use fomo.Queue.{Queues}
use fomo.Queue.Order
use fomo.Queue.Order.{
  push-IsValid, push_other-IsValid, items-push_other, take_out-IsValid, parent-push,
  parent-take_out, items-take_out_any,
}
use fomo.Nucleus.{Result, Operation, lookup}
use fomo.Nucleus.Valid
use fomo.Nucleus.Valid.{
  in_cache_pool, in_meta_pool, live, oblock_of, restat-IsValid, lookup-IsValid, lookup-live,
}
use fomo.Nucleus.Insert.{infer_cblock_some}
use fomo.Larc.{Larc, q_list, g_list}
use fomo.Larc.Access.{with_stats, renew}
use fomo.Larc.Valid.{IsPlaced, mem-cached, mem-ghosts}
use fomo.Larc.Insert.{Holds}

-- The queues after a hit: the entry is the last of its queue, unless it is on the move.
pub bumped : Queues → Bool → ℕ → Queues
bumped s moving e = if moving then s else Queue.push (Queue.take_out s e) q_list e

module _ (l : Larc) (o e : ℕ) (v : IsPlaced l) (on : live l.nucleus e ≡ true)
    (inside : in_cache_pool l.nucleus e ≡ true) (block : oblock_of l.nucleus e ≡ o) where
  bumped_last :
      (l.nucleus.mem.entry e).migrating ≡ false
      → Order.IsValid (Queue.push (Queue.take_out l.queues e) q_list e) q_list
  bumped_last still =
      push-IsValid (Queue.take_out l.queues e) q_list e
        (take_out-IsValid l.queues q_list e v.cached)
        (ground (arith, parent-take_out l.queues e e, ==_refl e))
        (ground (
          arith,
          ap length (items-take_out_any l.queues q_list e v.cached),
          length-remove e (l.queues.items q_list) v.cached.distinct,
          mem-cached l v e,
          v.cached.small,
        ))

  bumped_fields :
      Order.IsValid (bumped l.queues (l.nucleus.mem.entry e).migrating e) q_list
      × Order.IsValid (bumped l.queues (l.nucleus.mem.entry e).migrating e) g_list
      × ((a : ℕ)
          → (bumped l.queues (l.nucleus.mem.entry e).migrating e).parent a ≡ l.queues.parent a)
      × ((bumped l.queues (l.nucleus.mem.entry e).migrating e).items g_list ≡ l.queues.items g_list)
  unfolding bumped
  bumped_fields = elim (Bool-cases (l.nucleus.mem.entry e).migrating) [
    | inl moving ↦ rw moving (v.cached, v.ghosts, (λ a. refl), refl)
    | inr still ↦ rw still (
      bumped_last still,
      push_other-IsValid (Queue.take_out l.queues e) g_list q_list e refl
          (take_out-IsValid l.queues g_list e v.ghosts)
          (ground (arith, parent-take_out l.queues e e, ==_refl e)),
      (λ a. ground (
        arith,
        parent-push (Queue.take_out l.queues e) q_list e a,
        parent-take_out l.queues e a,
        v.homes e,
      )),
      items-push_other (Queue.take_out l.queues e) g_list q_list e refl
          ∙ items-take_out_any l.queues g_list e v.ghosts
          ∙ remove_absent e (l.queues.items g_list)
              (ground (arith, mem-ghosts l v e, v.nucleus.apart e)),
    )
  ]

  -- The block of a cached entry is renewed.
  pub renew-Holds :
      (result : Result)
      → (l' : Larc) × (c : ℕ) × (renew l o result
          ≡ some (l', record result { cblock = c; op = Operation.hit }))
        × Holds l l' o true
        × (l'.g_size ≡ l.g_size)
        × (l'.queues.items g_list ≡ l.queues.items g_list)
  unfolding renew bumped lookup
  renew-Holds result =
      let n = (lookup l.nucleus o).1 in
      let (c, index) = infer_cblock_some l.nucleus.cache_pool e v.two inside in
      let (q, g, parents, ghosts) = bumped_fields in
      let valid : Valid.IsValid n = lookup-IsValid l.nucleus o v.nucleus in
      (
        with_stats
            (record l { nucleus = n; queues = bumped l.queues (l.nucleus.mem.entry e).migrating e })
            inc_hits,
        c,
        rw (lookup-live l.nucleus o e v.nucleus on block, index) refl,
        record {
          placed = record {
            nucleus = restat-IsValid n (inc_hits n.stats) valid;
            cached = q;
            ghosts = g;
            homes = λ a. ground (arith, parents a, v.homes a);
            still = v.still;
            sized = v.sized;
            room = v.room;
            two = v.two;
          };
          same_size = refl;
          holder = e;
          holder_live = on;
          holder_block = block;
          holder_pool = inside;
        },
        refl,
        ghosts,
      )
