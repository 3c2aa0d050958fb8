-- ===== src/Tests/Handlers.antt =====
-- The handlers of FOMO over the small policy.
use fomo.Base.{
  ℕ, ◌≡◌, refl, List, [], ◌∷◌, false, Option, none, some, ◌==◌, ◌||◌, if◌then◌else◌, remove, arith,
}
use fomo.Ghost.{Ghost}
use fomo.Nucleus.{Operation}
use fomo.Fomo.{Fomo, FomoState}
use fomo.Fomo.Api
use fomo.Fomo.Decide.{is_fail}
use fomo.Fomo.Refine.{IsValid, decided, looked}
use fomo.Fomo.Handlers.{fomo_remove-IsValid, next_victim-IsValid}
use fomo.Fomo.Remap.{fomo_remap-IsValid}
use fomo.Ghost.Frame.{Spares}
use fomo.Ghost.Rename.{replaced}
use fomo.Tests.Histories.{two, two-Shows}
use fomo.Tests.Wrapped.{place, outcome, two_blocks, fomo_of, fomo_of-IsValid}

abbrev blocks : List ℕ
blocks = 1 ∷ 2 ∷ []

-- A miss history of the blocks 7 and 8.
abbrev missed : List ℕ
missed = 7 ∷ 8 ∷ []

abbrev inserting : Fomo two_blocks
inserting = record (fomo_of FomoState.insert 3 1 2 blocks) { ghost = two }

inserting-IsValid : IsValid two_blocks inserting missed
inserting-IsValid =
    let v = fomo_of-IsValid FomoState.insert 3 1 2 blocks in
    record { shows = two-Shows; within = omega arith; positive = v.positive; period = v.period }

fomo_remove-IsValid_example :
    (g : Ghost) × (Api.remove two_blocks inserting 7 false
      ≡ some (record inserting { ghost = g; internal = remove 7 blocks }))
    × IsValid two_blocks
        (record inserting { ghost = g; internal = remove 7 blocks })
        (if false then missed else remove 7 missed)
    × Spares (λ b. b == 7) inserting.ghost g
fomo_remove-IsValid_example =
    fomo_remove-IsValid two_blocks inserting missed inserting-IsValid 7 false refl

abbrev after : Fomo two_blocks
after = looked two_blocks inserting missed inserting-IsValid 5

next_victim-IsValid_example :
    (answer : Operation) × (who : Option ℕ) × (t : List ℕ) × (Api.next_victim two_blocks inserting 5
      ≡ some (answer, who, record after { internal = t }))
    × (answer ≡ (
        if (decided two_blocks inserting missed inserting-IsValid 5).filter
        then Operation.filter
        else (if is_fail two_blocks (outcome blocks 5) then Operation.fail else outcome blocks 5)))
    × (who ≡ (
        if (decided two_blocks inserting missed inserting-IsValid 5).filter
          || is_fail two_blocks (outcome blocks 5)
        then none
        else none))
    × IsValid two_blocks (record after { internal = t }) missed
next_victim-IsValid_example =
    next_victim-IsValid two_blocks inserting missed inserting-IsValid 5 refl refl

fomo_remap-IsValid_example :
    (g : Ghost) × (Api.remap two_blocks inserting 7 9
      ≡ some (record inserting { ghost = g; internal = place (remove 7 blocks) 9 }))
    × IsValid two_blocks
        (record inserting { ghost = g; internal = place (remove 7 blocks) 9 })
        (replaced 7 9 (remove 9 missed))
    × Spares (λ b. b == 7 || b == 9) inserting.ghost g
fomo_remap-IsValid_example =
    fomo_remap-IsValid two_blocks inserting missed 7 9 inserting-IsValid refl
