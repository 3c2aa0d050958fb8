-- ===== src/Nucleus/Touched.antt =====
-- src/include/cache_nucleus_internal.h: a mark on an entry of a valid policy, and a lookup that is
-- made again.
use fomo.Base.{
  ℕ, ◌≡◌, refl, ◌⊎◌, Bool, none, some, ◌||◌, Option-cases, Bool-cases, inl, inr, arith, ==_refl,
  update,
}
use fomo.Pool.{in_pool}
use fomo.Pool.Valid.{frame-IsValid}
use fomo.Nucleus.{Nucleus, note_write, lookup, in_cache}
use fomo.Nucleus.Valid
use fomo.Nucleus.Valid.{
  in_cache_pool, in_meta_pool, live, oblock_of, lookup-live, lookup_found, lookup_missed,
  restat-IsValid, lookup-IsValid,
}
use fomo.Nucleus.Cached.{is_cached, is_cached-eq}

-- A mark on an entry of the cache.
unfoldable pub touched : Nucleus → ℕ → Bool → Nucleus
touched n e write = record n {
  mem = record n.mem {
    entry =
        update n.mem.entry e (record (n.mem.entry e) { dirty = (n.mem.entry e).dirty || write });
  };
}

pub live-touched : (n : Nucleus) (e a : ℕ) (write : Bool) → live (touched n e write) a ≡ live n a
unfolding touched in_pool
live-touched n e a write = ground arith

pub oblock_of-touched :
    (n : Nucleus) (e a : ℕ) (write : Bool) → oblock_of (touched n e write) a ≡ oblock_of n a
unfolding touched
oblock_of-touched n e a write = ground arith

pub touched-IsValid :
    (n : Nucleus) (e : ℕ) (write : Bool) → Valid.IsValid n → Valid.IsValid (touched n e write)
unfolding touched in_pool
touched-IsValid n e write v = record {
  cache =
      frame-IsValid n.cache_pool n.mem.entry (touched n e write).mem.entry v.cache
        (λ a i. ground arith) (λ a i. ground arith);
  meta =
      frame-IsValid n.meta_pool n.mem.entry (touched n e write).mem.entry v.meta
        (λ a i. ground arith) (λ a i. ground arith);
  apart = v.apart;
  chained = λ b a. ground (arith, v.chained b a);
  names = λ c a l k. ground (arith, v.names c a);
}

pub is_cached-touched :
    (n : Nucleus) (e o : ℕ) (write : Bool)
    → Valid.IsValid n
    → is_cached (touched n e write) o ≡ is_cached n o
unfolding touched in_pool
is_cached-touched n e o write v =
    is_cached-eq n (touched n e write) o v (touched-IsValid n e write v)
      (λ a. live-touched n e a write) (λ a. refl) (λ a. oblock_of-touched n e a write)

-- The dirty work.
pub note_write-eq :
    (n : Nucleus) (o : ℕ) (write : Bool)
    → (note_write n o write ≡ (lookup n o).1)
      ⊎ ((e : ℕ) × (note_write n o write ≡ touched (lookup n o).1 e write))
unfolding note_write touched in_cache lookup
note_write-eq n o write = elim (Option-cases (lookup n o).0) [
  | inl missed ↦ inl (rw missed refl)
  | inr (e, found) ↦ elim (Bool-cases (in_cache (lookup n o).1 (some e))) [
    | inl inside ↦ inr (e, rw (found, inside) refl)
    | inr outside ↦ inl (rw (found, outside) refl)
  ]
]

-- A second lookup does not find the block either.
pub lookup_again :
    (n : Nucleus) (o : ℕ)
    → Valid.IsValid n
    → (lookup n o).0 ≡ none
    → (lookup (lookup n o).1 o).0 ≡ none
unfolding lookup in_pool
lookup_again n o v missed = elim (Option-cases (lookup (lookup n o).1 o).0) [
  | inl none_again ↦ none_again
  | inr (e, p) ↦
      let (on, block) = lookup_found (lookup n o).1 o (lookup-IsValid n o v) p in
      absurd (ground (arith, lookup_missed n o e v missed on, block, ==_refl o))
]
