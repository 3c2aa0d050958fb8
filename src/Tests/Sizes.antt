-- ===== src/Tests/Sizes.antt =====
-- m* for a cache of twenty blocks over the small policy.
use fomo.Base.{ℕ, ◌≡◌, refl, List, [], ◌∷◌, Bool, true, false, some, is_some, arith, ◌*◌, ◌/◌, ◌≤◌}
use fomo.Nucleus.{Result}
use fomo.Fomo.Runs.{no_result}
use fomo.Mstar.Logic.{StateId}
use fomo.Mstar.Policy.{Mstar, unstable, init, map, increase_ghost_size, decrease_ghost_size}
use fomo.Mstar.Policy.Size.{IsSized, increase_ghost_size-IsSized, decrease_ghost_size-IsSized}
use fomo.Mstar.Policy.Refine.{ghost_after, trimmed, Serves}
use fomo.Mstar.Policy.Runs.{
  IsValid, IsSound, run, map-IsValid, mstar_run-IsSound, mstar_init-IsValid,
}
use fomo.Tests.Wrapped.{place, outcome, two_blocks, Any, parity, some_memory}

two_blocks-Serves : Serves two_blocks Any
two_blocks-Serves = record {
  ask = λ s o ok. refl;
  able = λ s o write result ok. (place s o, record result { op = outcome s o }, refl, refl);
}

middle-IsSized : IsSized 20 11
middle-IsSized = record {
  ten = omega arith;
  word = omega arith;
  least = omega arith;
  most = omega arith;
}

increase_ghost_size-IsSized_example :
    (size : ℕ) × (increase_ghost_size 20 11 ≡ some size) × (11 ≤ size) × IsSized 20 size
increase_ghost_size-IsSized_example = increase_ghost_size-IsSized 20 11 middle-IsSized

decrease_ghost_size-IsSized_example :
    (size : ℕ) × (decrease_ghost_size 20 11 ≡ some size) × (size ≤ 11) × IsSized 20 size
decrease_ghost_size-IsSized_example = decrease_ghost_size-IsSized 20 11 middle-IsSized

-- What `mstar_init` makes.
made :
    (m : Mstar two_blocks) × (init two_blocks parity some_memory 100 20 true (1 ∷ 2 ∷ []) ≡ some m)
    × IsValid two_blocks m 20 []
    × (m.internal ≡ 1 ∷ 2 ∷ [])
    × (m.ghost_size ≡ 9 * 20 / 10)
    × (m.logic.state ≡ StateId.unstable)
made =
    mstar_init-IsValid two_blocks parity some_memory 100 20 true (1 ∷ 2 ∷ []) (omega arith)
      (omega arith)

-- The same over a full cache of the small policy.
abbrev full : Mstar two_blocks
full = record made.0 { internal = 1 ∷ 2 ∷ [] }

full-IsValid : IsValid two_blocks full 20 []
full-IsValid =
    let (m, inits, v, inner, size, state) = made in
    record { shows = v.shows; sized = v.sized; within = v.within; logic = v.logic }

map-IsValid_example :
    (m : Mstar two_blocks) × (result : Result) × (map two_blocks full 7 false no_result
      ≡ some (m, result))
    × IsValid two_blocks m 20 (
        trimmed m.ghost_size (
          ghost_after
            (unstable two_blocks full)
            (two_blocks.cache_is_full (two_blocks.cache_lookup full.internal 7).1)
            (is_some (two_blocks.cache_lookup full.internal 7).0)
            7
            []))
    × Any m.internal
map-IsValid_example =
    map-IsValid two_blocks Any two_blocks-Serves full 7 false no_result full-IsValid refl

abbrev trace : List (ℕ × Bool)
trace = (7, false) ∷ (1, true) ∷ (8, false) ∷ (7, false) ∷ []

mstar_run-IsSound_example :
    (m : Mstar two_blocks) × (run two_blocks full trace no_result ≡ some m)
    × IsSound two_blocks Any 20 m
mstar_run-IsSound_example =
    mstar_run-IsSound two_blocks Any two_blocks-Serves full trace no_result
      (record { shown = []; valid = full-IsValid; inner = refl })
