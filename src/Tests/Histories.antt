-- ===== src/Tests/Histories.antt =====
-- The miss history of a new FOMO, and the histories after one block and after two.
use fomo.Base.{◌≡◌, refl, [], ◌∷◌, true, false, some, mem, arith}
use fomo.Ghost.{Ghost, admit, history}
use fomo.Ghost.Valid.{Shows}
use fomo.Ghost.Steps.{admit-Shows}
use fomo.Fomo.{FomoState}
use fomo.Tests.Wrapped.{made, fomo_of-IsValid}

abbrev start : Ghost
start = made.0.ghost

start-Shows : Shows 4 start []
start-Shows = (fomo_of-IsValid FomoState.insert 0 0 0 []).shows

not_in_empty : mem 7 [] ≡ false
unfolding mem
not_in_empty = refl

-- The history with block 7.
pub one_block : (g : Ghost) × (admit start 7 ≡ some g) × Shows 4 g (7 ∷ [])
one_block = admit-Shows start start-Shows 7 not_in_empty (omega arith)

abbrev one : Ghost
one = one_block.0

not_in_one : mem 8 (7 ∷ []) ≡ false
unfolding mem
not_in_one = refl

-- The history with the blocks 7 and 8.
pub seven_eight : (g : Ghost) × (admit one 8 ≡ some g) × Shows 4 g (7 ∷ 8 ∷ [])
seven_eight = admit-Shows one one_block.2 8 not_in_one (omega arith)

abbrev pub two : Ghost
two = seven_eight.0

pub two-Shows : Shows 4 two (7 ∷ 8 ∷ [])
two-Shows = seven_eight.2

seven_shown : mem 7 (history two) ≡ true
unfolding mem
seven_shown = rw two-Shows.shown refl

five_absent : mem 5 (history two) ≡ false
unfolding mem
five_absent = rw two-Shows.shown refl

nine_absent : mem 9 (7 ∷ 8 ∷ []) ≡ false
unfolding mem
nine_absent = refl
