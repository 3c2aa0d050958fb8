-- ===== src/Tests/Runs.antt =====
-- FOMO over the small policy: what the theorems on its accesses say of some.
use fomo.Base.{
  ℕ, ◌≡◌, refl, List, [], ◌∷◌, Bool, true, false, some, not, ◌&&◌, mem, arith, ltb, leb, ◌==◌,
  if◌then◌else◌, ◌+◌, ◌*◌,
}
use fomo.Ghost
use fomo.Ghost.{Ghost}
use fomo.Ghost.Valid.{Shows}
use fomo.Nucleus.{Operation}
use fomo.Fomo.{Fomo, FomoState, Transaction}
use fomo.Fomo.Decide.{
  is_insert, is_fail, count_hits, end_period, set_filter, transaction_init, switch,
}
use fomo.Fomo.Commit.{map, note_access}
use fomo.Fomo.History.{history_after, note_access-Shows}
use fomo.Fomo.Refine.{
  IsValid, decision, decided, settled, expected, map-filtered, map-forwarded, map-failed,
}
use fomo.Fomo.Periods.{Counted, one_if, opens_iff, closes_iff, counted-after}
use fomo.Fomo.Runs.{IsSound, no_result, run, run-IsSound}
use fomo.Tests.Wrapped.{
  place, outcome, two_blocks, two_blocks-Keeps, Any, fomo_of, fomo_of-IsValid, fomo_of-Counted,
}

-- FOMO at the end of a period, and in the middle of one.
abbrev full_cache : List ℕ
full_cache = 1 ∷ 2 ∷ []

abbrev filtering : Fomo two_blocks
filtering = fomo_of FomoState.filter 3 1 2 full_cache

abbrev inserting : Fomo two_blocks
inserting = fomo_of FomoState.insert 9 1 2 full_cache

abbrev filtering-IsValid : IsValid two_blocks filtering []
filtering-IsValid = fomo_of-IsValid FomoState.filter 3 1 2 full_cache

abbrev inserting-IsValid : IsValid two_blocks inserting []
inserting-IsValid = fomo_of-IsValid FomoState.insert 9 1 2 full_cache

abbrev inserting-Counted : Counted two_blocks inserting 1 2
inserting-Counted =
    fomo_of-Counted FomoState.insert 9 1 2 full_cache (omega arith) (omega arith) (omega arith)

abbrev ending : Fomo two_blocks
ending = fomo_of FomoState.filter 9 1 2 full_cache

abbrev ending-Counted : Counted two_blocks ending 1 2
ending-Counted =
    fomo_of-Counted FomoState.filter 9 1 2 full_cache (omega arith) (omega arith) (omega arith)

inserting-IsSound : IsSound two_blocks Any inserting
inserting-IsSound = record {
  shown = [];
  valid = inserting-IsValid;
  cache_count = 1;
  history_count = 2;
  counted = inserting-Counted;
  inner = refl;
}

abbrev trace : List (ℕ × Bool)
trace = (5, false) ∷ (1, true) ∷ (13, false) ∷ (5, false) ∷ []

run-IsSound_example :
    (f : Fomo two_blocks) × (run two_blocks inserting trace ≡ some f) × IsSound two_blocks Any f
run-IsSound_example = run-IsSound two_blocks Any two_blocks-Keeps inserting trace inserting-IsSound

-- Whether the block is filtered in the filter state.
new_filtered : (decided two_blocks filtering [] filtering-IsValid 5).filter ≡ true
unfolding decision set_filter end_period count_hits transaction_init mem
new_filtered = refl

map-filtered_example :
    (g : Ghost) × (map two_blocks filtering 5 true no_result
      ≡ some (
        settled two_blocks filtering [] filtering-IsValid 5 g full_cache,
        record no_result { op = Operation.filter },
      ))
    × IsValid two_blocks
        (settled two_blocks filtering [] filtering-IsValid 5 g full_cache)
        (expected two_blocks filtering [] filtering-IsValid 5)
map-filtered_example =
    map-filtered two_blocks filtering [] filtering-IsValid 5 true no_result new_filtered

-- A block in the cache passes; block 13 passes while inserting, and the small policy refuses it.
cached_passes : (decided two_blocks filtering [] filtering-IsValid 1).filter ≡ false
unfolding decision set_filter end_period count_hits transaction_init mem
cached_passes = refl

hit_able : is_fail two_blocks (outcome full_cache 1) ≡ false
unfolding mem
hit_able = refl

map-forwarded_example :
    (g : Ghost) × (map two_blocks filtering 1 true no_result
      ≡ some (
        settled two_blocks filtering [] filtering-IsValid 1 g (place full_cache 1),
        record no_result { op = outcome full_cache 1 },
      ))
    × IsValid two_blocks
        (settled two_blocks filtering [] filtering-IsValid 1 g (place full_cache 1))
        (expected two_blocks filtering [] filtering-IsValid 1)
map-forwarded_example =
    map-forwarded two_blocks filtering [] filtering-IsValid 1 true no_result
      (record no_result { op = outcome full_cache 1 }) cached_passes refl hit_able refl

inserting_passes : (decided two_blocks inserting [] inserting-IsValid 13).filter ≡ false
unfolding decision set_filter end_period count_hits switch transaction_init mem
inserting_passes = refl

map-failed_example :
    (map two_blocks inserting 13 false no_result
      ≡ some (
        record inserting { ghost = (Ghost.find inserting.ghost 13).1 },
        record no_result { op = Operation.fail },
      ))
    × IsValid two_blocks (record inserting { ghost = (Ghost.find inserting.ghost 13).1 }) []
map-failed_example =
    map-failed two_blocks inserting [] inserting-IsValid 13 false no_result inserting_passes refl
      refl

opens_iff_example : is_insert (decision two_blocks ending [] false true 5).state ≡ (
    (ending.counter + 1 == ending.period_size)
    && (true
        && (ltb ending.period_size (20 * (2 + one_if (mem 5 [])))
            && ltb (1 + one_if false) (2 + one_if (mem 5 [])))))
opens_iff_example = opens_iff two_blocks ending ending-Counted [] false true 5 refl

closes_iff_example : not (is_insert (decision two_blocks inserting [] true true 1).state) ≡ (
    (inserting.counter + 1 == inserting.period_size)
    && (true && leb (2 + one_if (mem 1 [])) (1 + one_if true)))
closes_iff_example = closes_iff two_blocks inserting inserting-Counted [] true true 1 refl

abbrev counted_on : Ghost → Transaction → Fomo two_blocks
counted_on g t = record inserting {
  ghost = g;
  counter = t.counter;
  c_hits = t.c_hits;
  mh_hits = t.mh_hits;
  state = t.state;
  mh_hits_total = t.mh_hits_total;
}

counted-after_example :
    Counted two_blocks
      (counted_on inserting.ghost (decision two_blocks inserting [] true true 1))
      (if inserting.counter + 1 == inserting.period_size then 0 else 1 + one_if true)
      (if inserting.counter + 1 == inserting.period_size then 0 else 2 + one_if (mem 1 []))
counted-after_example =
    counted-after two_blocks inserting inserting-Counted [] true true 1 inserting.ghost full_cache

miss :
    (decision two_blocks inserting [] false true 5).mh_hit
    ≡ mem (decision two_blocks inserting [] false true 5).oblock []
unfolding decision set_filter end_period count_hits transaction_init
miss = refl

note_access-Shows_example :
    (g : Ghost) × (note_access 4 FomoState.insert
        (decision two_blocks inserting [] false true 5)
        inserting.ghost
      ≡ some g)
    × Shows 4 g (
        history_after 4 FomoState.insert
          (decision two_blocks inserting [] false true 5).c_hit
          (decision two_blocks inserting [] false true 5).oblock
          [])
note_access-Shows_example =
    note_access-Shows inserting.ghost inserting-IsValid.shows 4 FomoState.insert
      (decision two_blocks inserting [] false true 5) miss (omega arith) (omega arith) (omega arith)
