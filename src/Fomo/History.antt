-- ===== src/Fomo/History.antt =====
-- src/fomo/fomo_policy.c: what an access does to the miss history, as a list of blocks.
use fomo.Base.{
  ℕ, ◌≤◌, ◌<◌, ◌≡◌, refl, List, [], ◌∷◌, ◌++◌, Bool, true, false, some, ◌==◌, mem, remove, length,
  length-snoc, length-remove-le, if◌then◌else◌, ◌>>=◌, Bool-cases, inl, inr, sym, subst, arith,
  Distinct, remove_absent, length-remove,
}
use fomo.Ghost
use fomo.Ghost.{Ghost, mh}
use fomo.Ghost.Valid.{Shows}
use fomo.Ghost.Find.{find-Shows, find-IsEntry, find_present}
use fomo.Ghost.Steps.{admit-Shows, bump-Shows, drop-oldest-Shows, rest_of, len-Shows, forget-Shows}
use fomo.Fomo.{FomoState, Transaction}
use fomo.Fomo.Decide.{is_insert}
use fomo.Fomo.Commit.{renew, make_room, note_access}

-- The specification: the blocks missed and not yet back, least recent first. A block in the cache
-- leaves; a block missed again leaves while filtering, and becomes the most recent while
-- inserting; a new block becomes the most recent, in the place of the oldest in a full history.
unfoldable pub history_after : ℕ → FomoState → Bool → ℕ → List ℕ → List ℕ
history_after size state cached o h =
    if cached
    then remove o h
    else (if mem o h
        then (if is_insert state then remove o h ++ o ∷ [] else remove o h)
        else (if length h == size then rest_of h else h) ++ o ∷ [])

module _ {cap : ℕ} {h : List ℕ} (g : Ghost) (s : Shows cap g h) where
  renew-Shows :
      (o : ℕ)
      → mem o h ≡ true
      → (g' : Ghost) × (renew g o ≡ some g') × Shows cap g' (remove o h ++ o ∷ [])
  unfolding renew
  renew-Shows o m =
      let (e, found) = find_present g o s.valid (rw s.shown m) in
      (
        Ghost.bump (Ghost.find g o).1 e,
        rw found,
        bump-Shows (Ghost.find g o).1 (find-Shows g o s) (find-IsEntry g o s.valid found),
      )

  history-Distinct : Distinct h
  history-Distinct = subst Distinct s.shown s.valid.names

  make_room-Shows :
      (size : ℕ)
      → 0 < size
      → (g' : Ghost) × (make_room g size ≡ some g')
        × Shows cap g' (if length h == size then rest_of h else h)
  unfolding make_room
  make_room-Shows size pos = elim (Bool-cases (length h == size)) [
    | inr other ↦ (g, rw (len-Shows g s, other), rw other s)
    | inl full ↦
        let (e, g', old, dropped, s') = drop-oldest-Shows g s (ground arith) in
        (g', rw (len-Shows g s, full, old) dropped, rw full s')
  ]

  make_room-absent :
      (o size : ℕ) → mem o h ≡ false → mem o (if length h == size then rest_of h else h) ≡ false
  unfolding mem
  make_room-absent o size m = elim (Bool-cases (length h == size)) [
    | inr other ↦ rw other m
    | inl full ↦ rw full (mem-rest_of o h m)
  ]
    where
      mem-rest_of : (o : ℕ) (l : List ℕ) → mem o l ≡ false → mem o (rest_of l) ≡ false
      mem-rest_of o [] n = n
      mem-rest_of o (x ∷ l) n = ground arith

  make_room-length :
      (size : ℕ)
      → 0 < size
      → length h ≤ size
      → length (if length h == size then rest_of h else h) < size
  make_room-length size pos b = go h b
    where
      go :
          (l : List ℕ) → length l ≤ size → length (if length l == size then rest_of l else l) < size
      go [] q = ground arith
      go (x ∷ l) q = ground arith

  -- On a valid history of at most `size` blocks, with 0 < size and size within the pool, and a hit
  -- noted exactly if the history shows the block: the changes of an access to the miss history
  -- succeed and make of it what the specification `history_after` says.
  pub note_access-Shows :
      (size : ℕ) (state : FomoState) (ft : Transaction)
      → ft.mh_hit ≡ mem ft.oblock h
      → 0 < size
      → length h ≤ size
      → size ≤ cap
      → (g' : Ghost) × (note_access size state ft g ≡ some g')
        × Shows cap g' (history_after size state ft.c_hit ft.oblock h)
  unfolding note_access history_after
  note_access-Shows size state ft hit pos bound fits = by_case ft.c_hit ft.mh_hit state (sym hit)
    where
      o : ℕ
      o = ft.oblock

      by_case :
          (c m : Bool) (st : FomoState)
          → mem o h ≡ m
          → (g' : Ghost) × ((if c
                then (if m then Ghost.forget g o else some g)
                else (if m
                    then (if is_insert st then renew g o else Ghost.forget g o)
                    else (make_room g size >>= λ g'. Ghost.admit g' o)))
              ≡ some g')
            × Shows cap g' (history_after size st c o h)
      by_case true true st m = forget-Shows g s o m
      by_case true false st m = (g, refl, rw (remove_absent o h m) s)
      by_case false true FomoState.insert m = rw m (renew-Shows o m)
      by_case false true FomoState.filter m = rw m (forget-Shows g s o m)
      by_case false false st m =
          let (g1, made, s1) = make_room-Shows size pos in
          let (g2, admitted, s2) =
            admit-Shows g1 s1 o (make_room-absent o size m)
              (omega (arith, make_room-length size pos bound)) in
          rw (m, made) (g2, admitted, s2)

  -- The history stays within its size.
  pub length-history_after :
      (size : ℕ) (state : FomoState) (cached : Bool) (o : ℕ)
      → 0 < size
      → length h ≤ size
      → length (history_after size state cached o h) ≤ size
  unfolding history_after
  length-history_after size state cached o pos bound = ground (
    arith,
    length-remove-le o h,
    length-remove o h history-Distinct,
    length-snoc (remove o h) o,
    make_room-length size pos bound,
    length-snoc (if length h == size then rest_of h else h) o,
  )
