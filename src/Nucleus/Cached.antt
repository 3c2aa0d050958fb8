-- ===== src/Nucleus/Cached.antt =====
-- src/include/cache_nucleus_internal.h: whether a lookup finds a block in the cache.
use fomo.Base.{
  ℕ, ◌≡◌, refl, sym, ◌∙◌, Bool, true, false, none, Option-cases, inl, inr, arith, ==_refl,
}
use fomo.Nucleus.{Nucleus, lookup, in_cache}
use fomo.Nucleus.Valid.{
  IsValid, oblock_of, in_cache_pool, live, lookup_found, lookup_missed, lookup-live,
}

pub is_cached : Nucleus → ℕ → Bool
is_cached n o = in_cache (lookup n o).1 (lookup n o).0

pub is_cached-live :
    (n : Nucleus) (o e : ℕ)
    → IsValid n
    → live n e ≡ true
    → oblock_of n e ≡ o
    → is_cached n o ≡ in_cache_pool n e
unfolding is_cached in_cache lookup
is_cached-live n o e v on block = rw (lookup-live n o e v on block) refl

pub is_cached-none : (n : Nucleus) (o : ℕ) → (lookup n o).0 ≡ none → is_cached n o ≡ false
unfolding is_cached in_cache lookup
is_cached-none n o missed = rw missed refl

-- A block that no live entry of the cache has is not cached.
pub is_cached_unless :
    (n : Nucleus) (o : ℕ)
    → IsValid n
    → ((e : ℕ) → live n e ≡ true → oblock_of n e ≡ o → in_cache_pool n e ≡ false)
    → is_cached n o ≡ false
is_cached_unless n o v outside = elim (Option-cases (lookup n o).0) [
  | inl missed ↦ is_cached-none n o missed
  | inr (e, p) ↦
      let (on, block) = lookup_found n o v p in is_cached-live n o e v on block ∙ outside e on block
]

-- Policies with the same entries have the same blocks in the cache.
pub is_cached-eq :
    (n n' : Nucleus) (o : ℕ)
    → IsValid n
    → IsValid n'
    → ((e : ℕ) → live n' e ≡ live n e)
    → ((e : ℕ) → in_cache_pool n' e ≡ in_cache_pool n e)
    → ((e : ℕ) → oblock_of n' e ≡ oblock_of n e)
    → is_cached n' o ≡ is_cached n o
is_cached-eq n n' o v v' lives pools blocks = elim (Option-cases (lookup n o).0) [
  | inl missed ↦
      is_cached_unless n' o v' (λ e on block.
        absurd (ground (arith, lookup_missed n o e v missed, lives e, blocks e, ==_refl o)))
      ∙ sym (is_cached-none n o missed)
  | inr (e, p) ↦
      let (on, block) = lookup_found n o v p in
      is_cached-live n' o e v' (lives e ∙ on) (blocks e ∙ block)
      ∙ pools e
      ∙ sym (is_cached-live n o e v on block)
]
