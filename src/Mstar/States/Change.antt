-- ===== src/Mstar/States/Change.antt =====
-- The state changes of src/mstar/mstar_transitions.c: what the function `change_if_able` of a
-- state does to a logic that is sane.
use fomo.Base.{
  ℕ, ◌⊎◌, inl, ◌+◌, ◌<◌, ◌≡◌, refl, sym, subst, ◌∙◌, Bool, true, false, if◌then◌else◌, u32_mod,
  arith, is_some,
}
use fomo.Mstar.Window.{Phase, clear, phase_copy, phase_clear}
use fomo.Mstar.Ring
use fomo.Mstar.Rate.{clear-IsValid, copy-eq}
use fomo.Mstar.Transition.{
  TransitionId, us_s_th, us_s_p, us_un_th, us_un_p, s_us_p, un_us_th, un_us_p,
}
use fomo.Mstar.Params.{AllOnScale}
use fomo.Mstar.Logic.{
  StateId, Logic, transition_to, change_from_unstable, change_from_stable, change_from_unique,
  change_if_able,
}

-- The windows of a phase are valid and of the given size.
pub record PhaseOf (size : ℕ) (p : Phase) : Type 0 where
  pub cache_valid : Ring.IsValid p.cache_stats
  pub ghost_valid : Ring.IsValid p.ghost_stats
  pub cache_size : p.cache_stats.size ≡ size
  pub ghost_size : p.ghost_stats.size ≡ size

-- The logic, but for its counter: windows of the size of a phase, thresholds on their scales, and
-- a last transition if one is recent.
pub record IsSane (l : Logic) : Type 0 where
  pub some_tabu : 0 < l.tabu
  pub small : l.tabu + l.tabu < u32_mod
  pub this_valid : PhaseOf l.tabu l.this_phase
  pub prev_valid : PhaseOf l.tabu l.prev_phase
  pub remembered : l.recent_transition ≡ true → is_some l.last_transition ≡ true
  pub scales : AllOnScale l.transition_set

-- The changes between states that m* allows.
pub data Changes : StateId → StateId → Type 0 where
  stabilise : Changes StateId.unstable StateId.stable
  lose_reuse : Changes StateId.unstable StateId.unique
  destabilise : Changes StateId.stable StateId.unstable
  find_reuse : Changes StateId.unique StateId.unstable

-- What trying to change the state can come to: nothing, or one transition.
pub data Outcome (l : Logic) : Logic → Type 0 where
  stayed : Outcome l l
  changed :
      (t : TransitionId) (next : StateId) (clears : Bool)
      → Changes l.state next
      → Outcome l (transition_to l t next clears)

if-Outcome :
    (l : Logic) (b : Bool) (x y : Logic)
    → Outcome l x
    → Outcome l y
    → Outcome l (if b then x else y)
if-Outcome l true x y p q = p
if-Outcome l false x y p q = q

from_unstable-Outcome :
    (l : Logic) → l.state ≡ StateId.unstable → Outcome l (change_from_unstable l)
unfolding change_from_unstable
from_unstable-Outcome l e =
    let unique = subst (λ s. Changes s StateId.unique) (sym e) Changes.lose_reuse in
    let stable = subst (λ s. Changes s StateId.stable) (sym e) Changes.stabilise in
    if-Outcome l _ _ _ (Outcome.changed us_un_th StateId.unique false unique) (
      if-Outcome l _ _ _ (Outcome.changed us_un_p StateId.unique false unique) (
        if-Outcome l _ _ _ (Outcome.changed us_s_th StateId.stable true stable)
          (if-Outcome l _ _ _ (Outcome.changed us_s_p StateId.stable true stable) Outcome.stayed)))

from_stable-Outcome : (l : Logic) → l.state ≡ StateId.stable → Outcome l (change_from_stable l)
unfolding change_from_stable
from_stable-Outcome l e =
    let unstable = subst (λ s. Changes s StateId.unstable) (sym e) Changes.destabilise in
    if-Outcome l _ _ _ (Outcome.changed s_us_p StateId.unstable false unstable) Outcome.stayed

from_unique-Outcome : (l : Logic) → l.state ≡ StateId.unique → Outcome l (change_from_unique l)
unfolding change_from_unique
from_unique-Outcome l e =
    let unstable = subst (λ s. Changes s StateId.unstable) (sym e) Changes.find_reuse in
    if-Outcome l _ _ _ (Outcome.changed un_us_th StateId.unstable false unstable)
      (if-Outcome l _ _ _ (Outcome.changed un_us_p StateId.unstable false unstable) Outcome.stayed)

-- Which change was made is one of the four.
pub change_if_able-Outcome : (l : Logic) → Outcome l (change_if_able l)
unfolding change_if_able
change_if_able-Outcome l = by_state l.state refl
  where
    by_state :
        (s : StateId)
        → l.state ≡ s
        → Outcome l (elim s [
          | StateId.stable ↦ change_from_stable l
          | StateId.unstable ↦ change_from_unstable l
          | StateId.unique ↦ change_from_unique l
        ])
    by_state StateId.stable e = from_stable-Outcome l e
    by_state StateId.unstable e = from_unstable-Outcome l e
    by_state StateId.unique e = from_unique-Outcome l e

-- Copying windows of one size makes the phases equal.
pub phase_copy-eq :
    (n : ℕ) (to from : Phase) → PhaseOf n to → PhaseOf n from → phase_copy to from ≡ from
unfolding phase_copy
phase_copy-eq n to from t f = ground (
  arith,
  copy-eq to.cache_stats from.cache_stats t.cache_valid.places f.cache_valid.places
      (t.cache_size ∙ sym f.cache_size),
  copy-eq to.ghost_stats from.ghost_stats t.ghost_valid.places f.ghost_valid.places
      (t.ghost_size ∙ sym f.ghost_size),
)

phase_clear-PhaseOf : (n : ℕ) (p : Phase) → PhaseOf n p → PhaseOf n (phase_clear p)
unfolding phase_clear clear
phase_clear-PhaseOf n p v = record {
  cache_valid = unfold clear in (clear-IsValid p.cache_stats v.cache_valid);
  ghost_valid = unfold clear in (clear-IsValid p.ghost_stats v.ghost_valid);
  cache_size = v.cache_size;
  ghost_size = v.ghost_size;
}

transition_to-IsSane :
    (l : Logic) (t : TransitionId) (next : StateId) (clears : Bool)
    → IsSane l
    → IsSane (transition_to l t next clears)
unfolding transition_to
transition_to-IsSane l t next clears s = record {
  some_tabu = s.some_tabu;
  small = s.small;
  this_valid = phase_clear-PhaseOf l.tabu l.this_phase s.this_valid;
  prev_valid =
      subst (PhaseOf l.tabu)
        (sym (phase_copy-eq l.tabu l.prev_phase l.this_phase s.prev_valid s.this_valid))
        s.this_valid;
  remembered = λ _. refl;
  scales = s.scales;
}

pub Outcome-IsSane : (l m : Logic) → Outcome l m → IsSane l → IsSane m
Outcome-IsSane l m Outcome.stayed s = s
Outcome-IsSane l m (Outcome.changed t next clears c) s = transition_to-IsSane l t next clears s

-- The counter after an attempt to change is that before, or two phases.
pub Outcome-counter :
    (l m : Logic)
    → Outcome l m
    → IsSane l
    → (m.tabu ≡ l.tabu) × ((m.tabu_counter ≡ l.tabu_counter) ⊎ (m.tabu_counter ≡ l.tabu + l.tabu))
unfolding transition_to
Outcome-counter l m Outcome.stayed s = (refl, inl refl)
Outcome-counter l m (Outcome.changed t next clears c) s = ground (arith, s.small)
