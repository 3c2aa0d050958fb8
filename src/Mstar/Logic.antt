-- ===== src/Mstar/Logic.antt =====
-- src/mstar/mstar_logic.c and the state changes of src/mstar/mstar_transitions.c. A step faults
-- where the code divides by zero or goes through a null pointer.
use fomo.Base.{
  ℕ, ◌-◌, ◌/◌, Bool, true, false, Option, none, some, ltb, leb, ◌==◌, ◌&&◌, ◌||◌, if◌then◌else◌,
  ◌>>=◌, add32, sub32, mul32,
}
use fomo.Mstar.Window.{
  Window, init, clear, copy, push, average_hundredths, Phase, phase_init, phase_cache_hitrate,
  phase_ghost_hitrate, phase_clear, phase_copy,
}
use fomo.Mstar.Transition.{
  Judgement, TransitionSet, TransitionId, us_s_th, us_s_p, us_un_th, us_un_p, s_us_p, un_us_th,
  un_us_p, select, replace, transition_value, change_param, set_init,
}

-- `enum mstar_state_id`; a state is known by it.
pub data StateId : Type 0 where
  stable unstable unique : StateId

-- `struct mstar_logic`. `adaptive` tells which function `enter_new_phase` points to.
pub record Logic : Type 0 where
  pub this_phase : Phase
  pub prev_phase : Phase
  pub state_stats : Window
  pub state : StateId
  pub tabu : ℕ
  pub tabu_counter : ℕ
  pub adaptive : Bool
  pub transition_set : TransitionSet
  pub last_transition : Option TransitionId
  pub recent_transition : Bool

-- The value of a transition of the set.
abbrev pub value : Logic → TransitionId → ℕ
value l t = transition_value (select l.transition_set t)

-- `transition_improved_hitrate`
unfoldable pub improved_hitrate : Logic → Bool
improved_hitrate l = leb (phase_cache_hitrate l.prev_phase) (phase_cache_hitrate l.this_phase)

-- `transition_improved_unique`
unfoldable pub improved_unique : Logic → Option Bool
improved_unique l =
    let gained = sub32 l.this_phase.ghost_stats.sum l.prev_phase.ghost_stats.sum in
    if l.tabu == 0
    then none
    else some (
        ltb (value l un_us_th) (mul32 gained 100 / l.tabu)
        || ltb (value l un_us_p) (phase_cache_hitrate l.this_phase))

-- The function that `was_improvement` points to.
unfoldable pub improved : Logic → Judgement → Option Bool
improved l Judgement.hitrate = some (improved_hitrate l)
improved l Judgement.unique = improved_unique l

-- `next_state->id == UNSTABLE`
abbrev pub is_unstable : StateId → Bool
is_unstable StateId.unstable = true
is_unstable _ = false

-- `state_transition_to`
unfoldable pub transition_to : Logic → TransitionId → StateId → Bool → Logic
transition_to l current next clear_state_stats = record l {
  last_transition = some current;
  state = next;
  recent_transition = true;
  tabu_counter = if is_unstable next then mul32 2 l.tabu else l.tabu_counter;
  state_stats = if clear_state_stats then clear l.state_stats else l.state_stats;
  prev_phase = phase_copy l.prev_phase l.this_phase;
  this_phase = phase_clear l.this_phase;
}

-- `change_from_unstable_if_able`
unfoldable pub change_from_unstable : Logic → Logic
change_from_unstable l =
    let hr_sample = phase_cache_hitrate l.this_phase in
    let hr_state = average_hundredths l.state_stats in
    if ltb hr_sample (mul32 (value l us_un_th) hr_state)
    then transition_to l us_un_th StateId.unique false
    else (if ltb hr_sample (value l us_un_p)
        then transition_to l us_un_p StateId.unique false
        else (if ltb (mul32 100 hr_sample) (mul32 (add32 100 (value l us_s_th)) hr_state)
              && ltb (mul32 (sub32 100 (value l us_s_th)) hr_state) (mul32 100 hr_sample)
            then transition_to l us_s_th StateId.stable true
            else (if leb (mul32 (value l us_s_p) hr_state) hr_sample && leb 20 hr_sample
                then transition_to l us_s_p StateId.stable true
                else l)))

-- `change_from_stable_if_able`
unfoldable pub change_from_stable : Logic → Logic
change_from_stable l =
    let hr_sample = phase_cache_hitrate l.prev_phase in
    let hr_state = average_hundredths l.state_stats in
    if leb (mul32 100 hr_sample) (mul32 (value l s_us_p) hr_state)
    then transition_to l s_us_p StateId.unstable false
    else l

-- `change_from_unique_if_able`
unfoldable pub change_from_unique : Logic → Logic
change_from_unique l =
    let hr_sample = phase_cache_hitrate l.this_phase in
    let filter_hr_sample = phase_ghost_hitrate l.this_phase in
    if ltb (mul32 100 filter_hr_sample) (mul32 (value l un_us_th) hr_sample)
    then transition_to l un_us_th StateId.unstable false
    else (if ltb (value l un_us_p) hr_sample
        then transition_to l un_us_p StateId.unstable false
        else l)

-- The function `change_if_able` of the state.
unfoldable pub change_if_able : Logic → Logic
change_if_able l = elim l.state [
  | StateId.stable ↦ change_from_stable l
  | StateId.unstable ↦ change_from_unstable l
  | StateId.unique ↦ change_from_unique l
]

-- `logic->tabu_counter = logic->TABU` and, at the end, the old ghost statistics and the change.
unfoldable pub begin_phase : Logic → Logic
begin_phase l = change_if_able (record l {
  tabu_counter = l.tabu;
  prev_phase = record l.prev_phase {
    ghost_stats = copy l.prev_phase.ghost_stats l.this_phase.ghost_stats;
  };
})

-- The last transition becomes easier if it was an improvement, and harder if not.
unfoldable pub learn : Logic → TransitionId → Option Logic
learn l last =
    let t = select l.transition_set last in
    improved l t.was_improvement >>= λ better. some (record l {
      recent_transition = false;
      transition_set = replace l.transition_set last (record t {
        stat =
            change_param (if better then t.decrease_difficulty else t.increase_difficulty) t.stat;
      });
    })

-- `static_new_phase` and `adaptive_new_phase`
unfoldable pub new_phase : Logic → Option Logic
new_phase l =
    if l.adaptive && l.recent_transition
    then (l.last_transition >>= λ last. learn l last >>= λ l'. some (begin_phase l'))
    else some (begin_phase l)

-- The statistics of an access in `update_mstar`, and the counter.
unfoldable pub count_access : Logic → ℕ → ℕ → Logic
count_access l cache_hit ghost_hit = record l {
  this_phase = record {
    cache_stats = push l.this_phase.cache_stats cache_hit;
    ghost_stats = push l.this_phase.ghost_stats ghost_hit;
  };
  state_stats = push l.state_stats cache_hit;
  tabu_counter = if ltb 0 l.tabu_counter then l.tabu_counter - 1 else l.tabu_counter;
}

-- `update_mstar`
unfoldable pub update : Logic → Bool → Bool → Option Logic
update l cache_hit ghost_hit =
    let l' = count_access l (if cache_hit then 1 else 0) (if ghost_hit then 1 else 0) in
    if l'.tabu_counter == 0 then new_phase l' else some l'

-- The static variant starts with other places on three scales.
abbrev pub static_set : TransitionSet → TransitionSet
static_set s = record s {
  unstable_unique_percent = record s.unstable_unique_percent { stat = 260 };
  unique_unstable_threshold = record s.unique_unstable_threshold { stat = 310 };
  unique_unstable_percent = record s.unique_unstable_percent { stat = 473 };
}

-- `mstar_logic_init` where `mem_alloc` finds the memory.
unfoldable pub logic_init : Bool → ℕ → Logic
logic_init adaptive cache_size = record {
  this_phase = phase_init cache_size;
  prev_phase = phase_init cache_size;
  state_stats = init 0;
  state = StateId.unstable;
  tabu = cache_size;
  tabu_counter = mul32 2 cache_size;
  adaptive = adaptive;
  transition_set = if adaptive then set_init else static_set set_init;
  last_transition = none;
  recent_transition = false;
}
