-- ===== src/Mstar/Transition.antt =====
-- src/mstar/mstar_transitions.h and .c: the seven thresholds of m*, each a place between 0 and
-- 1000 on the scale of its transition, which adapts to how the transition turned out.
use fomo.Base.{ℕ, ◌/◌, ltb, ◌==◌, if◌then◌else◌, add32, sub32, mul32, min}

-- The function pointers of a transition: how its outcome is judged, and what a change of its
-- difficulty does to its place on the scale.
pub data Judgement : Type 0 where
  hitrate unique : Judgement

pub data Change : Type 0 where
  increase decrease : Change

-- `struct mstar_transition`
pub record Transition : Type 0 where
  pub min : ℕ
  pub max : ℕ
  pub stat : ℕ
  pub was_improvement : Judgement
  pub increase_difficulty : Change
  pub decrease_difficulty : Change

-- `struct mstar_transition_set`
pub record TransitionSet : Type 0 where
  pub unstable_stable_threshold : Transition
  pub unstable_stable_percent : Transition
  pub unstable_unique_threshold : Transition
  pub unstable_unique_percent : Transition
  pub stable_unstable_percent : Transition
  pub unique_unstable_threshold : Transition
  pub unique_unstable_percent : Transition

-- A pointer to a transition of the set.
pub data TransitionId : Type 0 where
  us_s_th us_s_p us_un_th us_un_p s_us_p un_us_th un_us_p : TransitionId

-- The transition that is pointed to.
unfoldable pub select : TransitionSet → TransitionId → Transition
select s us_s_th = s.unstable_stable_threshold
select s us_s_p = s.unstable_stable_percent
select s us_un_th = s.unstable_unique_threshold
select s us_un_p = s.unstable_unique_percent
select s s_us_p = s.stable_unstable_percent
select s un_us_th = s.unique_unstable_threshold
select s un_us_p = s.unique_unstable_percent

-- A write through the pointer.
unfoldable pub replace : TransitionSet → TransitionId → Transition → TransitionSet
replace s us_s_th t = record s { unstable_stable_threshold = t }
replace s us_s_p t = record s { unstable_stable_percent = t }
replace s us_un_th t = record s { unstable_unique_threshold = t }
replace s us_un_p t = record s { unstable_unique_percent = t }
replace s s_us_p t = record s { stable_unstable_percent = t }
replace s un_us_th t = record s { unique_unstable_threshold = t }
replace s un_us_p t = record s { unique_unstable_percent = t }

-- `transition_value`
unfoldable pub transition_value : Transition → ℕ
transition_value t = add32 (mul32 t.max t.stat / 1000) t.min

-- `transition_increase_param`, on the field `stat`.
unfoldable pub increase_param : ℕ → ℕ
increase_param cur = if cur == 0 then 1000 else min 1000 (add32 cur (1000 / cur))

-- `transition_decrease_param`, on the field `stat`. The maximum of 0 and `cur - tmp` is the latter.
unfoldable pub decrease_param : ℕ → ℕ
decrease_param stat =
    let cur = if stat == 1000 then 0 else stat in
    let tmp = 1000 / sub32 1000 cur in if ltb tmp cur then sub32 cur tmp else 0

-- The function that a transition names for a change of its difficulty.
unfoldable pub change_param : Change → ℕ → ℕ
change_param Change.increase = increase_param
change_param Change.decrease = decrease_param

-- The initial transitions.
abbrev unstable_stable_threshold : Transition
unstable_stable_threshold = record {
  min = 2;
  max = 20;
  stat = 555;
  was_improvement = Judgement.hitrate;
  increase_difficulty = Change.decrease;
  decrease_difficulty = Change.increase;
}

abbrev unstable_stable_percent : Transition
unstable_stable_percent = record {
  min = 105;
  max = 150;
  stat = 333;
  was_improvement = Judgement.hitrate;
  increase_difficulty = Change.increase;
  decrease_difficulty = Change.decrease;
}

abbrev unstable_unique_threshold : Transition
unstable_unique_threshold = record {
  min = 20;
  max = 80;
  stat = 500;
  was_improvement = Judgement.unique;
  increase_difficulty = Change.decrease;
  decrease_difficulty = Change.increase;
}

abbrev unstable_unique_percent : Transition
unstable_unique_percent = record {
  min = 2;
  max = 25;
  stat = 130;
  was_improvement = Judgement.unique;
  increase_difficulty = Change.decrease;
  decrease_difficulty = Change.increase;
}

abbrev stable_unstable_percent : Transition
stable_unstable_percent = record {
  min = 50;
  max = 90;
  stat = 500;
  was_improvement = Judgement.hitrate;
  increase_difficulty = Change.decrease;
  decrease_difficulty = Change.increase;
}

abbrev unique_unstable_threshold : Transition
unique_unstable_threshold = record {
  min = 1;
  max = 30;
  stat = 0;
  was_improvement = Judgement.hitrate;
  increase_difficulty = Change.increase;
  decrease_difficulty = Change.decrease;
}

abbrev unique_unstable_percent : Transition
unique_unstable_percent = record {
  min = 1;
  max = 20;
  stat = 237;
  was_improvement = Judgement.hitrate;
  increase_difficulty = Change.increase;
  decrease_difficulty = Change.decrease;
}

-- `mstar_transition_set_init`
unfoldable pub set_init : TransitionSet
set_init = record {
  unstable_stable_threshold = unstable_stable_threshold;
  unstable_stable_percent = unstable_stable_percent;
  unstable_unique_threshold = unstable_unique_threshold;
  unstable_unique_percent = unstable_unique_percent;
  stable_unstable_percent = stable_unstable_percent;
  unique_unstable_threshold = unique_unstable_threshold;
  unique_unstable_percent = unique_unstable_percent;
}
