-- ===== src/Larc/Commit.antt =====
-- src/algs/larc/larc_policy.c: `larc_transaction_set` and `larc_transaction_commit`, case by case.
use fomo.Base.{
  ℕ, ◌+◌, ◌≡◌, refl, ap, Bool, true, false, none, some, ltb, add32, ◌==◌, if◌then◌else◌,
  Option-cases, Bool-cases, inl, inr, arith, length,
}
use fomo.Nucleus
use fomo.Nucleus.{Nucleus, Result, Operation, lookup, cache_is_full}
use fomo.Nucleus.Valid.{
  in_cache_pool, in_meta_pool, live, oblock_of, lookup_found, lookup_missed, lookup-live,
}
use fomo.Larc.{Larc, Dest, Transaction, g_list, transaction_init, transaction_set, set_miss}
use fomo.Larc.Valid.{
  IsPlaced, IsValid, lookup-IsPlaced, increase_g_size-IsSized, decrease_g_size-IsSized,
}
use fomo.Mstar.Policy.Size.{IsSized}

if_bool : (b : Bool) → (if b then true else false) ≡ b
if_bool b = ground arith

-- LARC after a lookup.
abbrev pub looked : Larc → ℕ → Larc
looked l o = record l { nucleus = (lookup l.nucleus o).1 }

pub looked-IsValid : (l : Larc) (o : ℕ) → IsValid l → IsValid (looked l o)
unfolding lookup
looked-IsValid l o v = record { placed = lookup-IsPlaced l o v.placed; short = v.short }

-- Where a block is: in the cache, in the ghost queue, or nowhere.
pub data Known (l : Larc) (o : ℕ) : Type 0 where
  in_q :
      (e : ℕ)
      → live l.nucleus e ≡ true
      → oblock_of l.nucleus e ≡ o
      → in_cache_pool l.nucleus e ≡ true
      → Known l o
  in_g :
      (e : ℕ)
      → live l.nucleus e ≡ true
      → oblock_of l.nucleus e ≡ o
      → in_cache_pool l.nucleus e ≡ false
      → in_meta_pool l.nucleus e ≡ true
      → Known l o
  nowhere :
      ((e : ℕ) → live l.nucleus e ≡ true → (oblock_of l.nucleus e == o) ≡ false)
      → (lookup l.nucleus o).0 ≡ none
      → Known l o

pub find_block : (l : Larc) (o : ℕ) → IsPlaced l → Known l o
find_block l o v = elim (Option-cases (lookup l.nucleus o).0) [
  | inl missed ↦ Known.nowhere (λ e on. lookup_missed l.nucleus o e v.nucleus missed on) missed
  | inr (e, p) ↦
      let (on, block) = lookup_found l.nucleus o v.nucleus p in
      elim (Bool-cases (in_cache_pool l.nucleus e)) [
        | inl inside ↦ Known.in_q e on block inside
        | inr outside ↦ Known.in_g e on block outside (ground arith)
      ]
]

-- The transaction for a block that is in the cache.
abbrev pub hit_transaction : ℕ → ℕ → Transaction
hit_transaction o size = record {
  oblock = o;
  g_size = size;
  c_hit = true;
  c_evict = false;
  g_hit = false;
  g_evict = false;
  dest = Dest.larc_q;
}

-- For a block that is in the ghost queue.
abbrev pub ghost_transaction : ℕ → ℕ → Bool → Transaction
ghost_transaction o size full = record {
  oblock = o;
  g_size = size;
  c_hit = false;
  c_evict = full;
  g_hit = true;
  g_evict = false;
  dest = Dest.larc_q;
}

-- For a block that is new, to a cache with room, and to one without.
abbrev pub new_transaction : ℕ → ℕ → Transaction
new_transaction o size = record (hit_transaction o size) { c_hit = false }

abbrev pub filter_transaction : ℕ → ℕ → Bool → Transaction
filter_transaction o size over = record {
  oblock = o;
  g_size = size;
  c_hit = false;
  c_evict = false;
  g_hit = false;
  g_evict = over;
  dest = Dest.larc_g;
}

module _ (l : Larc) (o : ℕ) (v : IsValid l) where
  pub set-cached :
      (e : ℕ)
      → live l.nucleus e ≡ true
      → oblock_of l.nucleus e ≡ o
      → in_cache_pool l.nucleus e ≡ true
      → (size : ℕ) × (transaction_set l (transaction_init l o)
          ≡ some (looked l o, hit_transaction o size))
        × IsSized l.nucleus.meta_size size
  unfolding transaction_set transaction_init lookup Nucleus.in_cache
  set-cached e on block inside =
      let (size, smaller, less, s) = decrease_g_size-IsSized (looked l o) v.placed.sized in
      (size, rw (lookup-live l.nucleus o e v.placed.nucleus on block, inside, smaller) refl, s)

  pub set-ghost :
      (e : ℕ)
      → live l.nucleus e ≡ true
      → oblock_of l.nucleus e ≡ o
      → in_cache_pool l.nucleus e ≡ false
      → in_meta_pool l.nucleus e ≡ true
      → (size : ℕ) × (transaction_set l (transaction_init l o)
          ≡ some (looked l o, ghost_transaction o size (cache_is_full l.nucleus)))
        × IsSized l.nucleus.meta_size size
  unfolding transaction_set transaction_init lookup Nucleus.in_cache Nucleus.in_meta set_miss
      cache_is_full
  set-ghost e on block outside inside =
      let (size, larger, more, s) = increase_g_size-IsSized (looked l o) v.placed.sized in
      (
        size,
        rw (lookup-live l.nucleus o e v.placed.nucleus on block, outside, larger, inside)
            (ap (λ b. some (looked l o, ghost_transaction o size b))
              (if_bool (cache_is_full l.nucleus))),
        s,
      )

  pub set-new :
      (lookup l.nucleus o).0 ≡ none
      → cache_is_full l.nucleus ≡ false
      → (size : ℕ) × (transaction_set l (transaction_init l o)
          ≡ some (looked l o, new_transaction o size))
        × IsSized l.nucleus.meta_size size
  unfolding transaction_set transaction_init lookup Nucleus.in_cache Nucleus.in_meta set_miss
      cache_is_full
  set-new missed room =
      let (size, larger, more, s) = increase_g_size-IsSized (looked l o) v.placed.sized in
      (size, rw (missed, larger, room) refl, s)

  pub set-filter :
      (lookup l.nucleus o).0 ≡ none
      → cache_is_full l.nucleus ≡ true
      → (size : ℕ) × (transaction_set l (transaction_init l o)
          ≡ some (
            looked l o,
            filter_transaction o size (ltb size (length (l.queues.items g_list) + 1)),
          ))
        × IsSized l.nucleus.meta_size size
  unfolding transaction_set transaction_init lookup Nucleus.in_cache Nucleus.in_meta set_miss
      cache_is_full
  set-filter missed full =
      let (size, larger, more, s) = increase_g_size-IsSized (looked l o) v.placed.sized in
      let count : add32 (l.queues.len g_list) 1 ≡ length (l.queues.items g_list) + 1 =
        omega (arith, v.placed.ghosts.len_eq, v.short, v.placed.sized.word) in
      (
        size,
        rw (missed, larger, full, count)
            (ap (λ b. some (looked l o, filter_transaction o size b))
              (if_bool (ltb size (length (l.queues.items g_list) + 1)))),
        s,
      )
