-- ===== src/Fomo/Decide.antt =====
-- src/fomo/fomo_policy.c: what FOMO decides on an access, before anything is changed.
use fomo.Base.{
  ℕ, ◌%◌, Bool, true, false, Option, some, ◌&&◌, ◌||◌, not, ltb, leb, ◌==◌, if◌then◌else◌, is_some,
  add32, add64, mul32, ◌>>=◌,
}
use fomo.Ghost
use fomo.Nucleus.{Operation}
use fomo.Nucleus.Policy.{Policy}
use fomo.Fomo.{Fomo, FomoState, Transaction}

-- `state == FOMO_INSERT`
abbrev pub is_insert : FomoState → Bool
is_insert FomoState.insert = true
is_insert FomoState.filter = false

-- The hits of the access: they count, and the access is not filtered.
unfoldable pub count_hits : Bool → Bool → Transaction → Transaction
count_hits c_hit mh_hit ft = record ft {
  c_hit = c_hit;
  mh_hit = mh_hit;
  c_hits = if c_hit then add64 ft.c_hits 1000 else ft.c_hits;
  mh_hits = if mh_hit then add64 ft.mh_hits 1000 else ft.mh_hits;
  mh_hits_total = if mh_hit then add32 ft.mh_hits_total 1 else ft.mh_hits_total;
  filter = if c_hit || mh_hit then false else ft.filter;
  counter = add32 ft.counter 1;
}

-- The state that a full cache goes on in at the end of a period.
unfoldable pub switch : ℕ → Transaction → FomoState
switch period_size ft = elim ft.state [
  | FomoState.filter ↦
      if ltb (mul32 50 period_size) ft.mh_hits && ltb ft.c_hits ft.mh_hits
      then FomoState.insert
      else FomoState.filter
  | FomoState.insert ↦ if leb ft.mh_hits ft.c_hits then FomoState.filter else FomoState.insert
]

-- The end of a period: the state may change, and the counts begin anew.
unfoldable pub end_period : Bool → ℕ → Transaction → Transaction
end_period full period_size ft =
    if ft.counter % period_size == 0
    then record ft {
      state = if full then switch period_size ft else ft.state;
      c_hits = 0;
      mh_hits = 0;
      counter = 0;
    }
    else ft

-- While inserting, nothing is filtered.
unfoldable pub set_filter : Transaction → Transaction
set_filter ft = record ft { filter = if is_insert ft.state then false else ft.filter && true }

module _ (P : Policy) where
  -- `fomo_transaction_init`
  unfoldable pub transaction_init : Fomo P → ℕ → Transaction
  transaction_init f oblock = record {
    oblock = oblock;
    filter = true;
    state = f.state;
    c_hit = false;
    mh_hit = false;
    c_hits = f.c_hits;
    mh_hits = f.mh_hits;
    mh_hits_total = f.mh_hits_total;
    counter = f.counter;
  }

  -- `fomo_transaction_set`
  unfoldable pub transaction_set : Fomo P → Transaction → Fomo P × Transaction
  transaction_set f ft =
      let (fomo_e, g) = Ghost.find f.ghost ft.oblock in
      let (internal_e, s) = P.cache_lookup f.internal ft.oblock in
      let counted = count_hits (is_some internal_e) (is_some fomo_e) ft in
      (
        record f { ghost = g; internal = s },
        set_filter (end_period (P.pool_is_full s) f.period_size counted),
      )

  -- The access would fail in the wrapped policy.
  abbrev pub is_fail : Operation → Bool
  is_fail Operation.fail = true
  is_fail _ = false

  -- `fomo_transaction_is_legal`
  unfoldable pub transaction_is_legal : Fomo P → Transaction → Option (Bool × Fomo P)
  transaction_is_legal f ft =
      if ft.filter
      then some (true, f)
      else (P.next_victim f.internal ft.oblock >>= λ v.
          (let (op, _, s) = v in some (not (is_fail op), record f { internal = s })))
