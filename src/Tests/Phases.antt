-- ===== src/Tests/Phases.antt =====
-- m* for a cache of four blocks, its windows and its thresholds.
use fomo.Base.{
  ℕ, zero, suc, get_or, ◌≡◌, refl, List, [], ◌∷◌, Bool, true, false, some, arith, length, ◌+◌, ◌≤◌,
  ◌<◌, ◌==◌, if◌then◌else◌,
}
use fomo.Mstar.Window.{Window, push}
use fomo.Mstar.Ring
use fomo.Mstar.Push.{push-IsValid, recent, recent-push, len-push}
use fomo.Mstar.Transition.{Transition, Judgement, Change}
use fomo.Mstar.Logic.{Logic, logic_init}
use fomo.Mstar.States.Access.{IsValid, logic_init-IsValid}
use fomo.Mstar.States.Dwell.{Ends, run, run-Ends, run_dwells}

-- A logic of m*, adaptive, and the last access of its first two phases.
abbrev fresh : Logic
fresh = logic_init true 4

fresh-IsValid : IsValid fresh
fresh-IsValid = logic_init-IsValid true 4 (omega arith) (omega arith)

abbrev hits : List (Bool × Bool)
hits = (true, false) ∷ (false, true) ∷ (true, false) ∷ []

abbrev two_phases : List (Bool × Bool)
two_phases =
    (false, false)
    ∷ (false, true)
    ∷ (true, false)
    ∷ (false, false)
    ∷ (false, false)
    ∷ (true, false)
    ∷ (false, false)
    ∷ (false, true)
    ∷ []

run-Ends_example : Ends fresh.state (run fresh two_phases)
run-Ends_example = run-Ends fresh two_phases fresh-IsValid

three_accesses : length hits < fresh.tabu_counter
unfolding logic_init
three_accesses = omega arith

run_dwells_example :
    (m : Logic) × (run fresh hits ≡ some m)
    × IsValid m
    × (m.state ≡ fresh.state)
    × (m.tabu ≡ fresh.tabu)
    × (m.tabu_counter + length hits ≡ fresh.tabu_counter)
run_dwells_example = run_dwells fresh hits fresh-IsValid three_accesses

-- A window of two places that went round once: it holds 0, then 1.
abbrev round : Window
round = record { values = 1 ∷ 0 ∷ []; sum = 1; start = 1; end = 1; len = 2; size = 2 }

round-IsValid : Ring.IsValid round
unfolding Ring.wrap Ring.total
round-IsValid = record {
  some_place = omega arith;
  small = omega arith;
  places = refl;
  start_in = omega arith;
  len_in = omega arith;
  end_at = refl;
  bits = bits;
  summed = refl;
}
  where
    bits : (i : ℕ) → get_or (1 ∷ 0 ∷ []) i 0 ≤ 1
    bits zero = omega arith
    bits (suc zero) = omega arith
    bits (suc (suc i)) = omega arith

push-IsValid_example : Ring.IsValid (push round 1)
push-IsValid_example = push-IsValid round 1 round-IsValid (omega arith)

still_two : 0 < (push round 1).len
still_two = ground (arith, len-push round 1 round-IsValid (omega arith))

recent-push_example :
    ((push round 1).len ≡ (if round.len == round.size then round.len else round.len + 1))
    × ((k : ℕ)
        → k < (push round 1).len
        → recent (push round 1) k ≡ (
            if k + 1 == (push round 1).len
            then 1
            else recent round (if round.len == round.size then k + 1 else k)))
recent-push_example = recent-push round 1 round-IsValid (omega arith)

abbrev blank : Window
blank = record { values = 0 ∷ 0 ∷ []; sum = 0; start = 0; end = 0; len = 0; size = 2 }

-- The threshold for a change from unstable to stable.
abbrev threshold : Transition
threshold = record {
  min = 2;
  max = 20;
  stat = 555;
  was_improvement = Judgement.hitrate;
  increase_difficulty = Change.decrease;
  decrease_difficulty = Change.increase;
}
