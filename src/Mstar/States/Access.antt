-- ===== src/Mstar/States/Access.antt =====
-- `update_mstar` of src/mstar/mstar_logic.c: what an access does to a valid logic.
use fomo.Base.{
  ℕ, inl, inr, ◌+◌, ◌-◌, ◌≤◌, ◌<◌, ◌≡◌, refl, sym, ap, subst, ◌∙◌, Bool, true, false, Option, some,
  ◌==◌, ◌&&◌, if◌then◌else◌, ◌>>=◌, u32_mod, arith, is_some, Bool-cases, Option-cases,
}
use fomo.Mstar.Window.{Window, Phase, init, phase_init, copy, push, pop, store}
use fomo.Mstar.Ring
use fomo.Mstar.Push.{push-IsValid}
use fomo.Mstar.Rate.{init-IsValid, copy-eq}
use fomo.Mstar.Transition.{TransitionId, Judgement, select, replace, change_param}
use fomo.Mstar.Params.{
  replace-AllOnScale, change_param-OnScale, set_init-AllOnScale, static_set-AllOnScale,
}
use fomo.Mstar.Logic.{
  StateId, Logic, improved, improved_unique, value, transition_to, begin_phase, learn, new_phase,
  count_access, update, logic_init,
}
use fomo.Mstar.States.Change.{
  PhaseOf, IsSane, Changes, Outcome, change_if_able-Outcome, Outcome-IsSane, Outcome-counter,
}

-- A logic between two accesses: it is sane and its counter is within two phases.
pub record IsValid (l : Logic) : Type 0 where
  pub sane : IsSane l
  pub counting : 0 < l.tabu_counter
  pub within : l.tabu_counter ≤ l.tabu + l.tabu

-- A state stays or changes as m* allows.
pub data Follows (s : StateId) : StateId → Type 0 where
  same : Follows s s
  change : (t : StateId) → Changes s t → Follows s t

-- The code has returned, with a logic that is valid and in a state that may follow.
pub data Advances (s : StateId) : Option Logic → Type 0 where
  to : (m : Logic) → IsValid m → Follows s m.state → Advances s (some m)

size-pop : (w : Window) → (pop w).size ≡ w.size
unfolding pop
size-pop w = ground arith

size-push : (w : Window) (value : ℕ) → (push w value).size ≡ w.size
unfolding push store
size-push w value = ground (arith, size-pop w)

push-PhaseOf :
    (n : ℕ) (p : Phase) (c g : ℕ)
    → PhaseOf n p
    → c ≤ 1
    → g ≤ 1
    → PhaseOf n (record { cache_stats = push p.cache_stats c; ghost_stats = push p.ghost_stats g })
push-PhaseOf n p c g v i j = record {
  cache_valid = push-IsValid p.cache_stats c v.cache_valid i;
  ghost_valid = push-IsValid p.ghost_stats g v.ghost_valid j;
  cache_size = size-push p.cache_stats c ∙ v.cache_size;
  ghost_size = size-push p.ghost_stats g ∙ v.ghost_size;
}

count_access-IsSane : (l : Logic) (c g : ℕ) → IsSane l → c ≤ 1 → g ≤ 1 → IsSane (count_access l c g)
unfolding count_access
count_access-IsSane l c g s i j = record {
  some_tabu = s.some_tabu;
  small = s.small;
  this_valid = push-PhaseOf l.tabu l.this_phase c g s.this_valid i j;
  prev_valid = s.prev_valid;
  remembered = s.remembered;
  scales = s.scales;
}

-- The start of a phase: the old ghost statistics, and the counter.
opened-PhaseOf :
    (n : ℕ) (p t : Phase)
    → PhaseOf n p
    → PhaseOf n t
    → PhaseOf n (record p { ghost_stats = copy p.ghost_stats t.ghost_stats })
opened-PhaseOf n p t v w =
    let same =
      copy-eq p.ghost_stats t.ghost_stats v.ghost_valid.places w.ghost_valid.places
        (v.ghost_size ∙ sym w.ghost_size) in
    record {
      cache_valid = v.cache_valid;
      ghost_valid = subst Ring.IsValid (sym same) w.ghost_valid;
      cache_size = v.cache_size;
      ghost_size = ap (λ x. x.size) same ∙ w.ghost_size;
    }

Outcome-Follows : (l m : Logic) → Outcome l m → Follows l.state m.state
unfolding transition_to
Outcome-Follows l m Outcome.stayed = Follows.same
Outcome-Follows l m (Outcome.changed t next clears c) = Follows.change next c

changed-Advances :
    (l m : Logic) → IsSane l → l.tabu_counter ≡ l.tabu → Outcome l m → Advances l.state (some m)
changed-Advances l m s c o =
    Advances.to m
      (record {
        sane = Outcome-IsSane l m o s;
        counting = ground (arith, Outcome-counter l m o s, s.some_tabu);
        within = ground (arith, Outcome-counter l m o s, s.some_tabu);
      })
      (Outcome-Follows l m o)

begin_phase-Advances : (l : Logic) → IsSane l → Advances l.state (some (begin_phase l))
unfolding begin_phase
begin_phase-Advances l s =
    changed-Advances _ _
      (record {
        some_tabu = s.some_tabu;
        small = s.small;
        this_valid = s.this_valid;
        prev_valid = opened-PhaseOf l.tabu l.prev_phase l.this_phase s.prev_valid s.this_valid;
        remembered = s.remembered;
        scales = s.scales;
      })
      refl (change_if_able-Outcome _)

improved_some : (l : Logic) (j : Judgement) → IsSane l → is_some (improved l j) ≡ true
unfolding improved improved_unique
improved_some l Judgement.hitrate s = refl
improved_some l Judgement.unique s = ground (arith, s.some_tabu)

-- The logic that has learned.
abbrev learned : Logic → TransitionId → Bool → Logic
learned l last better =
    let t = select l.transition_set last in
    record l {
      recent_transition = false;
      transition_set = replace l.transition_set last (record t {
        stat =
            change_param (if better then t.decrease_difficulty else t.increase_difficulty) t.stat;
      });
    }

-- Learning from the last transition moves one place on its scale.
learn-IsSane :
    (l : Logic) (last : TransitionId)
    → IsSane l
    → (m : Logic) × (learn l last ≡ some m) × IsSane m × (m.state ≡ l.state)
unfolding learn
learn-IsSane l last s =
    let t = select l.transition_set last in
    elim (Option-cases (improved l t.was_improvement)) [
      | inl absent ↦ absurd (ground (arith, absent, improved_some l t.was_improvement s))
      | inr (better, e) ↦ (
        learned l last better,
        rw e refl,
        record {
          some_tabu = s.some_tabu;
          small = s.small;
          this_valid = s.this_valid;
          prev_valid = s.prev_valid;
          remembered = λ recent. absurd (ground (arith, recent));
          scales =
              replace-AllOnScale l.transition_set last _ s.scales
                (change_param-OnScale t _ (s.scales.on_scale last));
        },
        refl,
      )
    ]

new_phase-Advances : (l : Logic) → IsSane l → Advances l.state (new_phase l)
unfolding new_phase
new_phase-Advances l s = elim (Bool-cases (l.adaptive && l.recent_transition)) [
  | inl recent ↦ rw recent (elim (Option-cases l.last_transition) [
    | inl absent ↦ absurd (ground (arith, absent, recent, s.remembered))
    | inr (last, e) ↦
        let (m, learns, sane, kept) = learn-IsSane l last s in
        subst (Advances l.state)
          (sym (
            ap (λ o. o >>= λ t. learn l t >>= λ l'. some (begin_phase l')) e
            ∙ ap (λ o. o >>= λ l'. some (begin_phase l')) learns))
          (subst (λ x. Advances x (some (begin_phase m))) kept (begin_phase-Advances m sane))
  ])
  | inr not_recent ↦ rw not_recent (begin_phase-Advances l s)
]

-- What the count of an access leaves of the rest.
pub count_access_lem :
    (l : Logic) (c g : ℕ)
    → ((count_access l c g).state ≡ l.state)
      × ((count_access l c g).tabu ≡ l.tabu)
      × ((count_access l c g).tabu_counter ≡ l.tabu_counter - 1)
unfolding count_access
count_access_lem l c g = (refl, refl, ground arith)

abbrev pub bit : Bool → ℕ
bit b = if b then 1 else 0

bit-le : (b : Bool) → bit b ≤ 1
bit-le b = ground arith

pub counted-IsValid :
    (l : Logic) (c g : Bool)
    → IsValid l
    → 0 < l.tabu_counter - 1
    → IsValid (count_access l (bit c) (bit g))
counted-IsValid l c g v some_left =
    let (kept, tabu, counter) = count_access_lem l (bit c) (bit g) in
    record {
      sane = count_access-IsSane l (bit c) (bit g) v.sane (bit-le c) (bit-le g);
      counting = omega arith;
      within = omega (arith, v.within);
    }

counted-Advances :
    (l : Logic) (c g : Bool)
    → IsValid l
    → 0 < l.tabu_counter - 1
    → Advances l.state (some (count_access l (bit c) (bit g)))
counted-Advances l c g v some_left =
    let (kept, tabu, counter) = count_access_lem l (bit c) (bit g) in
    Advances.to _ (counted-IsValid l c g v some_left)
      (subst (Follows l.state) (sym kept) Follows.same)

-- An access of a valid logic never faults, by a division by zero or a missing transition; the
-- logic stays valid, and its state is the same or one that m* lets follow.
pub update-Advances : (l : Logic) (c g : Bool) → IsValid l → Advances l.state (update l c g)
unfolding update
update-Advances l c g v =
    let (kept, tabu, counter) = count_access_lem l (bit c) (bit g) in
    let m = count_access l (bit c) (bit g) in
    elim (Bool-cases (m.tabu_counter == 0)) [
      | inl over ↦ rw over (
          subst (λ s. Advances s (new_phase m)) kept
            (new_phase-Advances m
              (count_access-IsSane l (bit c) (bit g) v.sane (bit-le c) (bit-le g))))
      | inr going ↦ rw going (counted-Advances l c g v (ground arith))
    ]

phase_init-PhaseOf : (n : ℕ) → 0 < n → n + n < u32_mod → PhaseOf n (phase_init n)
unfolding phase_init init
phase_init-PhaseOf n pos small = record {
  cache_valid = unfold init in (init-IsValid n pos small);
  ghost_valid = unfold init in (init-IsValid n pos small);
  cache_size = refl;
  ghost_size = refl;
}

-- For every cache size above 0 that twice fits a word, the logic that `mstar_logic_init` makes,
-- adaptive or static, is valid.
pub logic_init-IsValid :
    (adaptive : Bool) (cache_size : ℕ)
    → 0 < cache_size
    → cache_size + cache_size < u32_mod
    → IsValid (logic_init adaptive cache_size)
unfolding logic_init
logic_init-IsValid adaptive n pos small =
    let phase = phase_init-PhaseOf n pos small in
    record {
      sane = record {
        some_tabu = pos;
        small = small;
        this_valid = phase;
        prev_valid = phase;
        remembered = λ recent. absurd (ground (arith, recent));
        scales = elim (Bool-cases adaptive) [
          | inl on ↦ rw on set_init-AllOnScale
          | inr off ↦ rw off static_set-AllOnScale
        ];
      };
      counting = ground arith;
      within = ground arith;
    }
