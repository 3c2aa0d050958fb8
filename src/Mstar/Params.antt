-- ===== src/Mstar/Params.antt =====
-- src/mstar/mstar_transitions.c: the places of the transitions on their scales.
use fomo.Base.{ℕ, ◌⊎◌, subst, sym, ◌+◌, ◌*◌, ◌/◌, ◌≤◌, ◌<◌, ◌≡◌, refl, u32_mod, arith, inl, inr}
use native.Mathlib.Nat.{div-le_of_le-mul, div-le_self}
use fomo.Mstar.Logic.{static_set}
use fomo.Mstar.Transition.{
  Change, Transition, TransitionSet, TransitionId, us_s_th, us_s_p, us_un_th, us_un_p, s_us_p,
  un_us_th, un_us_p, select, replace, transition_value, increase_param, decrease_param,
  change_param, set_init,
}

-- An increase of a place of at most 1000 does not make it smaller, and leaves it at most 1000.
pub increase_param_bounds :
    (cur : ℕ) → cur ≤ 1000 → (cur ≤ increase_param cur) × (increase_param cur ≤ 1000)
unfolding increase_param
increase_param_bounds cur h = ground (arith, div-le_self 1000 cur)

-- A decrease of a place of at most 1000 does not make it larger, and takes 1000 to 0.
pub decrease_param_bounds :
    (cur : ℕ) → cur ≤ 1000 → (decrease_param cur ≤ cur) × (cur ≡ 1000 → decrease_param cur ≡ 0)
unfolding decrease_param
decrease_param_bounds cur h = ground arith

change_param_le : (c : Change) (cur : ℕ) → cur ≤ 1000 → change_param c cur ≤ 1000
unfolding change_param
change_param_le Change.increase cur h = (increase_param_bounds cur h).1
change_param_le Change.decrease cur h = omega (arith, (decrease_param_bounds cur h).0)

-- A place on the scale of 0 to 1000, of a maximum that fits a word.
pub record OnScale (t : Transition) : Type 0 where
  pub place : t.stat ≤ 1000
  pub fits : t.max * 1000 + t.min < u32_mod

-- Every transition of the set is on its scale.
pub record AllOnScale (s : TransitionSet) : Type 0 where
  pub on_scale : (t : TransitionId) → OnScale (select s t)

at_start : (t : Transition) → t.stat ≡ 0 → t.max * t.stat ≡ 0
at_start t e = rw e (omega arith)

at_end : (t : Transition) → t.stat ≡ 1000 → t.max * t.stat / 1000 ≡ t.max
at_end t e = rw e (omega arith)

-- For a transition on its scale, its value is at least its minimum and at most the sum of its
-- minimum and its maximum; at place 0 it is the minimum, and at place 1000 the sum.
pub transition_value_bounds :
    (t : Transition)
    → OnScale t
    → (t.min ≤ transition_value t)
      × (transition_value t ≤ t.min + t.max)
      × (t.stat ≡ 0 → transition_value t ≡ t.min)
      × (t.stat ≡ 1000 → transition_value t ≡ t.min + t.max)
unfolding transition_value
transition_value_bounds t s =
    let scaled : t.max * t.stat ≤ t.max * 1000 = grind (arith, s.place) in
    ground (
      arith,
      s.fits,
      scaled,
      div-le_of_le-mul 1000 {m = t.max * t.stat} {n = t.max} (omega (arith, scaled)),
      at_start t,
      at_end t,
    )

-- A write to one transition changes no other.
select-replace :
    (s : TransitionSet) (t u : TransitionId) (x : Transition)
    → (select (replace s t x) u ≡ x) ⊎ (select (replace s t x) u ≡ select s u)
unfolding select replace
select-replace s us_s_th us_s_th x = inl refl
select-replace s us_s_th _ x = inr refl
select-replace s us_s_p us_s_p x = inl refl
select-replace s us_s_p _ x = inr refl
select-replace s us_un_th us_un_th x = inl refl
select-replace s us_un_th _ x = inr refl
select-replace s us_un_p us_un_p x = inl refl
select-replace s us_un_p _ x = inr refl
select-replace s s_us_p s_us_p x = inl refl
select-replace s s_us_p _ x = inr refl
select-replace s un_us_th un_us_th x = inl refl
select-replace s un_us_th _ x = inr refl
select-replace s un_us_p un_us_p x = inl refl
select-replace s un_us_p _ x = inr refl

pub replace-AllOnScale :
    (s : TransitionSet) (t : TransitionId) (x : Transition)
    → AllOnScale s
    → OnScale x
    → AllOnScale (replace s t x)
replace-AllOnScale s t x a o = record {
  on_scale = λ u. elim (select-replace s t u x) [
    | inl new ↦ subst OnScale (sym new) o
    | inr old ↦ subst OnScale (sym old) (a.on_scale u)
  ];
}

set_init-OnScale : (t : TransitionId) → OnScale (select set_init t)
unfolding set_init select
set_init-OnScale us_s_th = record { place = omega arith; fits = omega arith }
set_init-OnScale us_s_p = record { place = omega arith; fits = omega arith }
set_init-OnScale us_un_th = record { place = omega arith; fits = omega arith }
set_init-OnScale us_un_p = record { place = omega arith; fits = omega arith }
set_init-OnScale s_us_p = record { place = omega arith; fits = omega arith }
set_init-OnScale un_us_th = record { place = omega arith; fits = omega arith }
set_init-OnScale un_us_p = record { place = omega arith; fits = omega arith }

pub set_init-AllOnScale : AllOnScale set_init
set_init-AllOnScale = record { on_scale = set_init-OnScale }

-- The places that the static variant starts with.
static_set-OnScale : (t : TransitionId) → OnScale (select (static_set set_init) t)
unfolding set_init select
static_set-OnScale us_s_th = record { place = omega arith; fits = omega arith }
static_set-OnScale us_s_p = record { place = omega arith; fits = omega arith }
static_set-OnScale us_un_th = record { place = omega arith; fits = omega arith }
static_set-OnScale us_un_p = record { place = omega arith; fits = omega arith }
static_set-OnScale s_us_p = record { place = omega arith; fits = omega arith }
static_set-OnScale un_us_th = record { place = omega arith; fits = omega arith }
static_set-OnScale un_us_p = record { place = omega arith; fits = omega arith }

pub static_set-AllOnScale : AllOnScale (static_set set_init)
static_set-AllOnScale = record { on_scale = static_set-OnScale }

-- A place that changed stays on the scale.
pub change_param-OnScale :
    (t : Transition) (c : Change) → OnScale t → OnScale (record t { stat = change_param c t.stat })
change_param-OnScale t c o = record { place = change_param_le c t.stat o.place; fits = o.fits }
