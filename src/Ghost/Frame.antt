-- ===== src/Ghost/Frame.antt =====
-- src/fomo/fomo_policy.c and src/mstar/mstar_policy.c: what a removal or a renaming does not touch
-- in a miss history.
use fomo.Base.{
  ℕ, ◌≡◌, refl, sym, subst, ap, ◌∙◌, List, Bool, true, false, Option, none, some, arith,
}
use fomo.Entry.{rename_entry}
use fomo.Nucleus
use fomo.Ghost.{Ghost, oblock_of, find, drop}
use fomo.Ghost.Valid.{Shows, IsEntry}
use fomo.Ghost.Drop.{dropped, drop-eq-dropped}
use fomo.Ghost.Rename.{renamed}

-- The statistics, the time, the sizes and the cache pool of the nucleus are as they were, and so is
-- every entry that does not hold one of the blocks `touched`.
pub record Spares (touched : ℕ → Bool) (g g' : Ghost) : Type 0 where
  pub same_stats : g'.nucleus.stats ≡ g.nucleus.stats
  pub same_time : g'.nucleus.time ≡ g.nucleus.time
  pub same_meta_size : g'.nucleus.meta_size ≡ g.nucleus.meta_size
  pub same_cache_size : g'.nucleus.cache_size ≡ g.nucleus.cache_size
  pub same_cache_pool : g'.nucleus.cache_pool ≡ g.nucleus.cache_pool
  pub same_entries :
      (a : ℕ) → touched (oblock_of g a) ≡ false → g'.nucleus.mem.entry a ≡ g.nucleus.mem.entry a

-- What is left of a history, if anything is.
left : Ghost → Option Ghost → Ghost
left g none = g
left g (some g') = g'

module _ {touched : ℕ → Bool} where
  pub Spares-trans : {f g h : Ghost} → Spares touched f g → Spares touched g h → Spares touched f h
  Spares-trans {f} {g} {h} s t = record {
    same_stats = t.same_stats ∙ s.same_stats;
    same_time = t.same_time ∙ s.same_time;
    same_meta_size = t.same_meta_size ∙ s.same_meta_size;
    same_cache_size = t.same_cache_size ∙ s.same_cache_size;
    same_cache_pool = t.same_cache_pool ∙ s.same_cache_pool;
    same_entries = λ a other.
        (let same = s.same_entries a other in
          t.same_entries a (ap (λ e. touched e.oblock) same ∙ other) ∙ same);
  }

  pub find-Spares : (g : Ghost) (o : ℕ) → Spares touched g (find g o).1
  unfolding find Nucleus.lookup
  find-Spares g o = record {
    same_stats = refl;
    same_time = refl;
    same_meta_size = refl;
    same_cache_size = refl;
    same_cache_pool = refl;
    same_entries = λ a other. refl;
  }

  dropped-Spares :
      (g : Ghost) (e : ℕ) → touched (oblock_of g e) ≡ true → Spares touched g (dropped g e)
  unfolding dropped
  dropped-Spares g e named = record {
    same_stats = refl;
    same_time = refl;
    same_meta_size = refl;
    same_cache_size = refl;
    same_cache_pool = refl;
    same_entries = λ a other. ground (arith, named, other);
  }

  pub drop-Spares :
      {cap : ℕ} {h : List ℕ} {g g' : Ghost} {e o : ℕ}
      → Shows cap g h
      → IsEntry g e o
      → touched o ≡ true
      → drop g e ≡ some g'
      → Spares touched g g'
  unfolding left
  drop-Spares {g = g} {e = e} s i named drops =
      subst (Spares touched g) (ap (left g) (sym (drop-eq-dropped g e s.valid i.inside) ∙ drops))
        (dropped-Spares g e (ap touched i.named ∙ named))

  pub renamed-Spares :
      {g : Ghost} {e o : ℕ} (new : ℕ)
      → IsEntry g e o
      → touched o ≡ true
      → Spares touched g (renamed g e new)
  unfolding Nucleus.rehash rename_entry
  renamed-Spares {g} {e} {o} new i named = record {
    same_stats = refl;
    same_time = refl;
    same_meta_size = refl;
    same_cache_size = refl;
    same_cache_pool = refl;
    same_entries = λ a other. ground (arith, named, other, ap touched i.named);
  }
