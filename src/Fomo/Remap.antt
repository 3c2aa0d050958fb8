-- ===== src/Fomo/Remap.antt =====
-- src/fomo/fomo_policy.c: what `fomo_remap` does to the miss history.
use fomo.Base.{
  ℕ, ◌≡◌, refl, List, Bool, true, false, some, ◌==◌, ◌||◌, Option-cases, mem, remove, subst, sym,
  Bool-cases, inl, inr, arith, length-remove-le, length-map, remove_absent, mem-remove, ==_refl,
}
use fomo.Ghost
use fomo.Ghost.{Ghost}
use fomo.Ghost.Valid.{Shows}
use fomo.Ghost.Find.{find-Shows, find_present, find_absent, find-IsEntry}
use fomo.Ghost.Steps.{drop-Shows}
use fomo.Ghost.Frame.{Spares, Spares-trans, find-Spares, drop-Spares, renamed-Spares}
use fomo.Ghost.Rename.{in_place, replaced, replaced_absent, rename-Shows}
use fomo.Nucleus.Policy.{Policy}
use fomo.Fomo.{Fomo}
use fomo.Fomo.Api
use fomo.Fomo.Api.{clear_name, rename}
use fomo.Fomo.Refine.{IsValid}

module _ {cap : ℕ} {h : List ℕ} (g : Ghost) (s : Shows cap g h) where
  -- No entry is left for the new block.
  clear_name-Shows :
      (P : Policy) (new : ℕ) {touched : ℕ → Bool}
      → touched new ≡ true
      → (g' : Ghost) × (clear_name P g new ≡ some g')
        × Shows cap g' (remove new h)
        × Spares touched g g'
  unfolding clear_name
  clear_name-Shows P new named = elim (Bool-cases (mem new h)) [
    | inr absent ↦ (
      (Ghost.find g new).1,
      rw (find_absent g new s.valid (rw s.shown absent), clear_name) refl,
      subst (Shows cap (Ghost.find g new).1) (sym (remove_absent new h absent))
          (find-Shows g new s),
      find-Spares g new,
    )
    | inl present ↦
        let (e, found) = find_present g new s.valid (rw s.shown present) in
        let entry = find-IsEntry g new s.valid found in
        let (g', dropped, s') = drop-Shows (Ghost.find g new).1 (find-Shows g new s) entry in
        (
          g',
          rw (found, clear_name) dropped,
          s',
          Spares-trans (find-Spares g new) (drop-Spares (find-Shows g new s) entry named dropped),
        )
  ]

  -- The entry of the current block takes the new one.
  renamed-Shows :
      (P : Policy) (current new : ℕ)
      → mem new h ≡ false
      → Shows cap (rename P g current new) (replaced current new h)
  unfolding rename
  renamed-Shows P current new fresh = elim (Bool-cases (mem current h)) [
    | inr absent ↦
        rw (find_absent g current s.valid (rw s.shown absent), rename)
          (subst (Shows cap (Ghost.find g current).1) (sym (replaced_absent current new h absent))
            (find-Shows g current s))
    | inl present ↦
        let (e, found) = find_present g current s.valid (rw s.shown present) in
        rw (found, rename)
          (rename-Shows (Ghost.find g current).1 e current new (find-Shows g current s)
            (find-IsEntry g current s.valid found) fresh)
  ]

module _ {cap : ℕ} {h : List ℕ} (g : Ghost) (s : Shows cap g h) where
  rename-Spares :
      (P : Policy) (current new : ℕ) {touched : ℕ → Bool}
      → touched current ≡ true
      → Spares touched g (rename P g current new)
  unfolding rename
  rename-Spares P current new named = elim (Option-cases (Ghost.find g current).0) [
    | inl absent ↦ rw (absent, rename) (find-Spares g current)
    | inr (e, found) ↦
        rw (found, rename)
          (Spares-trans (find-Spares g current)
            (renamed-Spares new (find-IsEntry g current s.valid found) named))
  ]

-- On a valid FOMO, if the wrapped policy remaps, `fomo_remap` succeeds: the new block leaves the
-- miss history and then takes the place of the current one, and FOMO stays valid. Its state,
-- counts, period and size are as they were, and so are the statistics, the time, the sizes and the
-- cache pool of its nucleus and every entry that holds neither block.
pub fomo_remap-IsValid :
    (P : Policy) (f : Fomo P) (h : List ℕ) (current new : ℕ) {s : P.State}
    → IsValid P f h
    → P.remap f.internal current new ≡ some s
    → (g : Ghost) × (Api.remap P f current new ≡ some (record f { ghost = g; internal = s }))
      × IsValid P (record f { ghost = g; internal = s }) (replaced current new (remove new h))
      × Spares (λ b. b == current || b == new) f.ghost g
unfolding Api.remap
fomo_remap-IsValid P f h current new {s} v remapped =
    let (g, cleared, shows, spares) =
      clear_name-Shows f.ghost v.shows P new {touched = λ b. b == current || b == new}
        (ground (arith, ==_refl new)) in
    let fresh : mem new (remove new h) ≡ false =
      ground (arith, mem-remove new new h, ==_refl new) in
    (
      rename P g current new,
      rw (cleared, remapped) refl,
      record {
        shows = renamed-Shows g shows P current new fresh;
        within = omega (
          arith,
          v.within,
          length-remove-le new h,
          length-map (in_place current new) (remove new h),
        );
        positive = v.positive;
        period = v.period;
      },
      Spares-trans spares (rename-Spares g shows P current new (ground (arith, ==_refl current))),
    )
