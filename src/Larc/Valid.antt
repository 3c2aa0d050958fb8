-- ===== src/Larc/Valid.antt =====
-- src/algs/larc/larc_policy.c: when the queues of LARC and its pools agree, and the size of the
-- ghost queue.
use fomo.Base.{
  ℕ, ◌+◌, ◌-◌, ◌*◌, ◌/◌, ◌≤◌, ◌<◌, ◌≡◌, ◌∷◌, ltb, true, false, Option, none, some, not, ◌&&◌, mem,
  mem-cons, length, length-subset, if◌then◌else◌, min, max, sub32, u32_mod, arith,
}
use native.Mathlib.Nat.{div-le_self}
use fomo.Queue.{in_queue}
use fomo.Queue.Order
use fomo.Nucleus.{Nucleus, lookup}
use fomo.Nucleus.Valid
use fomo.Nucleus.Valid.{in_cache_pool, in_meta_pool, live}
use fomo.Larc.{Larc, q_list, g_list, increase_g_size, decrease_g_size}
use fomo.Mstar.Policy.Size.{IsSized}

-- The queue of an entry: none for one that is free or on the move.
abbrev pub home : Nucleus → ℕ → Option ℕ
home n e =
    if live n e && not (n.mem.entry e).migrating
    then (if in_cache_pool n e then some q_list else some g_list)
    else none

-- Each entry is in its queue, and no ghost entry is on the move.
pub record IsPlaced (l : Larc) : Type 0 where
  pub nucleus : Valid.IsValid l.nucleus
  pub cached : Order.IsValid l.queues q_list
  pub ghosts : Order.IsValid l.queues g_list
  pub homes : (e : ℕ) → l.queues.parent e ≡ home l.nucleus e
  pub still : (e : ℕ) → in_meta_pool l.nucleus e ≡ true → (l.nucleus.mem.entry e).migrating ≡ false
  pub sized : IsSized l.nucleus.meta_size l.g_size
  pub room : l.nucleus.meta_pool.nr_entries ≡ l.nucleus.meta_size
  pub two : 1 < l.nucleus.cache_pool.nr_entries

-- The ghost queue also is no longer than nine tenths of the cache.
pub record IsValid (l : Larc) : Type 0 where
  pub placed : IsPlaced l
  pub short : length (l.queues.items g_list) ≤ 9 * l.nucleus.meta_size / 10

-- What the queues hold.
pub mem-cached :
    (l : Larc)
    → IsPlaced l
    → (e : ℕ)
    → mem e (l.queues.items q_list) ≡ (
        in_cache_pool l.nucleus e
        && ((l.nucleus.mem.entry e).allocated && not (l.nucleus.mem.entry e).migrating))
unfolding in_queue
mem-cached l v e = ground (arith, v.cached.parent_in e, v.homes e)

pub mem-ghosts :
    (l : Larc)
    → IsPlaced l
    → (e : ℕ)
    → mem e (l.queues.items g_list)
      ≡ (in_meta_pool l.nucleus e && (l.nucleus.mem.entry e).allocated)
unfolding in_queue
mem-ghosts l v e = ground (arith, v.ghosts.parent_in e, v.homes e, v.still e, v.nucleus.apart e)

-- There is room in the length of the queue for an entry that is in use and not in the queue.
pub cached_room :
    (l : Larc) (e : ℕ)
    → IsPlaced l
    → in_cache_pool l.nucleus e ≡ true
    → (l.nucleus.mem.entry e).allocated ≡ true
    → (l.nucleus.mem.entry e).migrating ≡ true
    → length (l.queues.items q_list) + 1 < u32_mod
cached_room l e v i on moving =
    let many : length (e ∷ l.queues.items q_list) ≤ length v.nucleus.cache.used =
      length-subset (e ∷ l.queues.items q_list) v.nucleus.cache.used
        (ground (arith, mem-cached l v e), v.cached.distinct) v.nucleus.cache.used_distinct
        (λ a m. ground (
          arith,
          mem-cons a e (l.queues.items q_list),
          mem-cached l v a,
          v.nucleus.cache.used_iff a,
          v.nucleus.cache.used_iff e,
        )) in
    omega (arith, v.nucleus.cache.count, v.nucleus.cache.small)

-- A lookup changes nothing but the order in one chain.
pub lookup-IsPlaced :
    (l : Larc) (o : ℕ) → IsPlaced l → IsPlaced (record l { nucleus = (lookup l.nucleus o).1 })
unfolding lookup
lookup-IsPlaced l o v = record {
  nucleus = Valid.lookup-IsValid l.nucleus o v.nucleus;
  cached = v.cached;
  ghosts = v.ghosts;
  homes = v.homes;
  still = v.still;
  sized = v.sized;
  room = v.room;
  two = v.two;
}

-- For sound bounds: the increase divides by no zero, does not make the ghost queue's size smaller,
-- and keeps the bounds.
pub increase_g_size-IsSized :
    (l : Larc)
    → IsSized l.nucleus.meta_size l.g_size
    → (size : ℕ) × (increase_g_size l ≡ some size)
      × (l.g_size ≤ size)
      × IsSized l.nucleus.meta_size size
unfolding increase_g_size
increase_g_size-IsSized l s =
    let bound = div-le_self l.nucleus.meta_size l.g_size in
    (
      min (9 * l.nucleus.meta_size / 10) (l.g_size + l.nucleus.meta_size / l.g_size),
      ground (arith, bound, s.ten, s.word, s.least, s.most),
      ground (arith, s.most),
      record {
        ten = s.ten;
        word = s.word;
        least = ground (arith, s.least, s.ten);
        most = ground arith;
      },
    )

-- The same of the decrease.
pub decrease_g_size-IsSized :
    (l : Larc)
    → IsSized l.nucleus.meta_size l.g_size
    → (size : ℕ) × (decrease_g_size l ≡ some size)
      × (size ≤ l.g_size)
      × IsSized l.nucleus.meta_size size
unfolding decrease_g_size
decrease_g_size-IsSized l s =
    let c = l.nucleus.meta_size in
    let room : sub32 c l.g_size ≡ c - l.g_size = omega (arith, s.ten, s.word, s.most) in
    let bound = div-le_self c (c - l.g_size) in
    let tmp = c / (c - l.g_size) in
    (
      if ltb tmp l.g_size then max (c / 10) (l.g_size - tmp) else c / 10,
      rw room (ground (arith, bound, s.ten, s.word, s.least, s.most)),
      ground (arith, s.least),
      record {
        ten = s.ten;
        word = s.word;
        least = ground arith;
        most = ground (arith, s.most, s.ten);
      },
    )
