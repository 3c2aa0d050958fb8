-- ===== src/Larc/Remove.antt =====
-- src/algs/larc/larc_policy.c: the removal of an entry and the evictions.
use fomo.Base.{
  ℕ, ◌<◌, ◌≡◌, refl, true, false, Option, none, some, mem, remove, length, not, ◌&&◌, if◌then◌else◌,
  Bool-cases, inl, inr, arith,
}
use fomo.Entry.Stats.{Stats, inc_demotions}
use fomo.Pool
use fomo.Queue
use fomo.Queue.Order.{
  take_out-IsValid, parent-take_out, peek-first, take_out_lone, items-take_out_any,
}
use fomo.Nucleus.{Nucleus, Result, cache_is_full}
use fomo.Nucleus.Valid
use fomo.Nucleus.Valid.{in_cache_pool, in_meta_pool, live, oblock_of, restat-IsValid}
use fomo.Nucleus.Remove.{
  Drops, unstocked, unshelved, remove_entry-unstocked, unstocked-Drops, unstocked-IsValid,
  remove_entry-unshelved, unshelved-Drops, unshelved-IsValid,
}
use fomo.Larc.{Larc, q_list, g_list}
use fomo.Larc.Access.{remove_entry, evict}
use fomo.Larc.Valid.{IsPlaced, mem-cached, mem-ghosts}

-- The statistics after the removal of an entry: that of a cached one is a demotion, unless the
-- entry is on the move.
abbrev pub demoted : Larc → ℕ → Stats
demoted l e =
    if in_cache_pool l.nucleus e && not (l.nucleus.mem.entry e).migrating
    then inc_demotions l.nucleus.stats
    else l.nucleus.stats

-- What the removal of an entry changes in LARC.
pub record Removes (l l' : Larc) (e : ℕ) : Type 0 where
  pub placed : IsPlaced l'
  pub drops : Drops l.nucleus l'.nucleus e
  pub same_size : l'.nucleus.meta_size ≡ l.nucleus.meta_size
  pub same_g_size : l'.g_size ≡ l.g_size
  pub counted : l'.nucleus.stats ≡ demoted l e
  pub cached_left : l'.queues.items q_list ≡ remove e (l.queues.items q_list)
  pub ghosts_left : l'.queues.items g_list ≡ remove e (l.queues.items g_list)
  pub keeps_room : cache_is_full l.nucleus ≡ false → cache_is_full l'.nucleus ≡ false
  pub makes_room : in_cache_pool l.nucleus e ≡ true → cache_is_full l'.nucleus ≡ false

module _ (l : Larc) (e : ℕ) (v : IsPlaced l) where
  -- LARC after the nucleus has dropped the entry and the entry has left its queue.
  removed-IsPlaced :
      (n : Nucleus)
      → Valid.IsValid n
      → Drops l.nucleus n e
      → n.meta_size ≡ l.nucleus.meta_size
      → n.meta_pool.nr_entries ≡ l.nucleus.meta_pool.nr_entries
      → n.cache_pool.nr_entries ≡ l.nucleus.cache_pool.nr_entries
      → IsPlaced (record l { nucleus = n; queues = Queue.take_out l.queues e })
  removed-IsPlaced n valid d size metas caches = record {
    nucleus = valid;
    cached = take_out-IsValid l.queues q_list e v.cached;
    ghosts = take_out-IsValid l.queues g_list e v.ghosts;
    homes = λ a. ground (
      arith,
      parent-take_out l.queues e a,
      v.homes a,
      d.drops_live a,
      d.drops_moving a,
      d.drops_cache a,
    );
    still = λ a i. ground (arith, v.still a, d.drops_moving a, d.drops_meta a);
    sized = rw size v.sized;
    room = ground (arith, v.room);
    two = ground (arith, v.two);
  }

  module _ (s : Stats) where
    restated : Nucleus
    restated = record l.nucleus { stats = s }

    restated-IsValid : Valid.IsValid restated
    unfolding restated
    restated-IsValid = restat-IsValid l.nucleus s v.nucleus

    restated-Drops : (n : Nucleus) → Drops restated n e → Drops l.nucleus n e
    unfolding restated
    restated-Drops n d = record {
      drops_live = d.drops_live;
      drops_cache = d.drops_cache;
      drops_meta = d.drops_meta;
      drops_moving = d.drops_moving;
      drops_oblock = d.drops_oblock;
      spares = d.spares;
      same_time = d.same_time;
    }

    removed_cached :
        s ≡ demoted l e
        → in_cache_pool l.nucleus e ≡ true
        → (l.nucleus.mem.entry e).allocated ≡ true
        → Removes l
            (record l { nucleus = unstocked restated e; queues = Queue.take_out l.queues e })
            e
    unfolding unstocked restated cache_is_full Pool.empty
    removed_cached counts inside on =
        let d : Drops l.nucleus (unstocked restated e) e =
          restated-Drops (unstocked restated e)
            (unstocked-Drops restated e restated-IsValid inside on) in
        record {
          placed =
              removed-IsPlaced (unstocked restated e)
                (unstocked-IsValid restated e restated-IsValid inside on) d refl refl refl;
          drops = d;
          same_size = refl;
          same_g_size = refl;
          counted = counts;
          cached_left = items-take_out_any l.queues q_list e v.cached;
          ghosts_left = items-take_out_any l.queues g_list e v.ghosts;
          keeps_room = λ _. refl;
          makes_room = λ _. refl;
        }

    removed_ghost :
        s ≡ demoted l e
        → in_cache_pool l.nucleus e ≡ false
        → in_meta_pool l.nucleus e ≡ true
        → (l.nucleus.mem.entry e).allocated ≡ true
        → Removes l
            (record l { nucleus = unshelved restated e; queues = Queue.take_out l.queues e })
            e
    unfolding unshelved restated cache_is_full Pool.empty
    removed_ghost counts outside inside on =
        let d : Drops l.nucleus (unshelved restated e) e =
          restated-Drops (unshelved restated e)
            (unshelved-Drops restated e restated-IsValid outside inside on) in
        record {
          placed =
              removed-IsPlaced (unshelved restated e)
                (unshelved-IsValid restated e restated-IsValid outside inside on) d refl refl refl;
          drops = d;
          same_size = refl;
          same_g_size = refl;
          counted = counts;
          cached_left = items-take_out_any l.queues q_list e v.cached;
          ghosts_left = items-take_out_any l.queues g_list e v.ghosts;
          keeps_room = λ h. h;
          makes_room = λ h. absurd (ground (arith, outside, h));
        }

  -- `larc_remove_entry` of an entry that is in use succeeds.
  pub remove_entry-Removes :
      live l.nucleus e ≡ true → (l' : Larc) × (remove_entry l e ≡ some l') × Removes l l' e
  unfolding remove_entry restated
  remove_entry-Removes on = elim (Bool-cases (in_cache_pool l.nucleus e)) [
    | inl inside ↦
        let used : (l.nucleus.mem.entry e).allocated ≡ true = ground arith in
        elim (Bool-cases (l.nucleus.mem.entry e).migrating) [
          | inl moving ↦ (
            _,
            rw
                (
                  moving,
                  remove_entry-unstocked (restated l.nucleus.stats) e
                      (restated-IsValid l.nucleus.stats) inside used,
                  take_out_lone l.queues e (ground (arith, v.homes e)),
                )
                refl,
            removed_cached l.nucleus.stats (rw (inside, moving) refl) inside used,
          )
          | inr still ↦ (
            _,
            rw
                (
                  still,
                  inside,
                  remove_entry-unstocked (restated (inc_demotions l.nucleus.stats)) e
                      (restated-IsValid (inc_demotions l.nucleus.stats)) inside used,
                )
                refl,
            removed_cached (inc_demotions l.nucleus.stats) (rw (inside, still) refl) inside used,
          )
        ]
    | inr outside ↦
        let inside : in_meta_pool l.nucleus e ≡ true = ground arith in
        let used : (l.nucleus.mem.entry e).allocated ≡ true = ground arith in
        (
          _,
          rw
              (
                v.still e inside,
                outside,
                remove_entry-unshelved (restated l.nucleus.stats) e
                    (restated-IsValid l.nucleus.stats) outside inside used,
              )
              refl,
          removed_ghost l.nucleus.stats (rw outside refl) outside inside used,
        )
  ]

-- `larc_evict` removes the first entry, and notes it in the result.
evict-first :
    (l l' : Larc) (q e : ℕ) (result? : Option Result)
    → Queue.peek l.queues q ≡ some e
    → remove_entry l e ≡ some l'
    → evict l q result?
      ≡ some (
        l',
        elim result? [
          | none ↦ none
          | some result ↦ some (record result {
            old_oblock = (l.nucleus.mem.entry e).oblock;
            dirty_eviction = (l.nucleus.mem.entry e).dirty;
          })
        ],
      )
unfolding evict
evict-first l l' q e result? first removed = rw (first, removed) refl

-- `larc_evict` of a queue that is not empty succeeds: what is removed is the first entry.
pub evict_cached :
    (l : Larc) (result : Result)
    → IsPlaced l
    → 0 < l.queues.len q_list
    → (e : ℕ) × (l' : Larc) × (evict l q_list (some result)
        ≡ some (
          l',
          some (record result {
            old_oblock = oblock_of l.nucleus e;
            dirty_eviction = (l.nucleus.mem.entry e).dirty;
          }),
        ))
      × (Queue.peek l.queues q_list ≡ some e)
      × (in_cache_pool l.nucleus e ≡ true)
      × Removes l l' e
evict_cached l result v some_in =
    let (e, first, there) = peek-first l.queues q_list (omega (arith, v.cached.len_eq)) in
    let on = mem-cached l v e in
    let (l', removed, r) = remove_entry-Removes l e v (ground arith) in
    (e, l', evict-first l l' q_list e (some result) first removed, first, ground arith, r)

pub evict_ghost :
    (l : Larc)
    → IsPlaced l
    → 0 < length (l.queues.items g_list)
    → (e : ℕ) × (l' : Larc) × (evict l g_list none ≡ some (l', none))
      × (mem e (l.queues.items g_list) ≡ true)
      × Removes l l' e
evict_ghost l v some_in =
    let (e, first, there) = peek-first l.queues g_list some_in in
    let on = mem-ghosts l v e in
    let (l', removed, r) = remove_entry-Removes l e v (ground arith) in
    (e, l', evict-first l l' g_list e none first removed, there, r)
