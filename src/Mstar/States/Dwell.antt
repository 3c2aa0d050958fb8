-- ===== src/Mstar/States/Dwell.antt =====
-- src/mstar/mstar_logic.c over many accesses: which states a logic reaches, and how long it stays
-- in one.
use fomo.Base.{
  ◌+◌, ◌<◌, ◌≡◌, refl, ap, ◌∙◌, Bool, Option, some, ◌>>=◌, arith, List, [], ◌∷◌, length,
}
use fomo.Mstar.Logic.{StateId, Logic, count_access, update}
use fomo.Mstar.States.Change.{Changes}
use fomo.Mstar.States.Access.{
  IsValid, Follows, Advances, count_access_lem, bit, counted-IsValid, update-Advances,
}

-- The accesses of a trace, one after the other: whether the cache was hit, and the ghost cache.
unfoldable pub run : Logic → List (Bool × Bool) → Option Logic
run l [] = some l
run l ((c, g) ∷ accesses) = update l c g >>= λ m. run m accesses

-- The states that follow a state in any number of changes.
pub data Reaches : StateId → StateId → Type 0 where
  here : (s : StateId) → Reaches s s
  onward : (s t u : StateId) → Changes s t → Reaches t u → Reaches s u

pub data Ends (s : StateId) : Option Logic → Type 0 where
  at : (m : Logic) → IsValid m → Reaches s m.state → Ends s (some m)

prepend : (s t : StateId) (o : Option Logic) → Follows s t → Ends t o → Ends s o
prepend s t o Follows.same e = e
prepend s _ _ (Follows.change t c) (Ends.at m v r) = Ends.at m v (Reaches.onward s t m.state c r)

after_access :
    (s : StateId) (accesses : List (Bool × Bool)) (o : Option Logic)
    → Advances s o
    → ((m : Logic) → IsValid m → Ends m.state (run m accesses))
    → Ends s (o >>= λ m. run m accesses)
after_access s accesses _ (Advances.to m v f) rest = prepend s m.state _ f (rest m v)

-- From a valid logic a run over any trace never faults, and ends in a valid logic in a state that
-- the changes of m* reach from the first.
pub run-Ends :
    (l : Logic) (accesses : List (Bool × Bool)) → IsValid l → Ends l.state (run l accesses)
unfolding run
run-Ends l [] v = Ends.at l v (Reaches.here l.state)
run-Ends l ((c, g) ∷ accesses) v =
    after_access l.state accesses (update l c g) (update-Advances l c g v)
      (λ m w. run-Ends m accesses w)

-- Before the counter runs out an access is only counted.
update_counted :
    (l : Logic) (c g : Bool)
    → 1 < l.tabu_counter
    → update l c g ≡ some (count_access l (bit c) (bit g))
unfolding update
update_counted l c g many = ground (arith, count_access_lem l (bit c) (bit g))

-- From a valid logic, accesses fewer than its tabu counter run without a fault, leave the logic
-- valid and its state and the length of its phases as they are, and take their number from the
-- counter.
pub run_dwells :
    (l : Logic) (accesses : List (Bool × Bool))
    → IsValid l
    → length accesses < l.tabu_counter
    → (m : Logic) × (run l accesses ≡ some m)
      × IsValid m
      × (m.state ≡ l.state)
      × (m.tabu ≡ l.tabu)
      × (m.tabu_counter + length accesses ≡ l.tabu_counter)
unfolding run
run_dwells l [] v some_left = (l, refl, v, refl, refl, omega arith)
run_dwells l ((c, g) ∷ accesses) v some_left =
    let l' = count_access l (bit c) (bit g) in
    let (kept, tabu, counter) = count_access_lem l (bit c) (bit g) in
    let (m, runs, valid, stays, fixed, counts) =
      run_dwells l' accesses (counted-IsValid l c g v (omega arith)) (omega arith) in
    (
      m,
      ap (λ o. o >>= λ x. run x accesses) (update_counted l c g (omega arith)) ∙ runs,
      valid,
      stays ∙ kept,
      fixed ∙ tabu,
      omega arith,
    )
