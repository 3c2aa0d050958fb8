-- ===== src/Fomo/Runs.antt =====
-- src/fomo/fomo_policy.c: any sequence of accesses, over a wrapped policy that keeps its promises.
use fomo.Base.{ℕ, ◌≡◌, refl, List, [], ◌∷◌, Bool, false, Option, some, ◌>>=◌, Bool-cases, inl, inr}
use fomo.Ghost
use fomo.Ghost.{Ghost}
use fomo.Nucleus.{Operation, Result}
use fomo.Nucleus.Policy.{Policy}
use fomo.Fomo.{Fomo}
use fomo.Fomo.Decide.{is_fail}
use fomo.Fomo.Commit.{map}
use fomo.Fomo.Refine.{
  IsValid, decided, map-filtered, map-forwarded, map-failed, asked, cached, settled, expected,
}
use fomo.Fomo.Periods.{Counted, counted-after}

-- What FOMO asks of the policy that it wraps, over the states `Ok`: a lookup and the choice of a
-- victim go well, and so does the access that the choice has not refused.
pub record Keeps (P : Policy) (Ok : P.State → Type 0) : Type 0 where
  pub ask : (s : P.State) (o : ℕ) → Ok s → Ok (P.cache_lookup s o).1
  pub choose :
      (s : P.State) (o : ℕ)
      → Ok s
      → (op : Operation) × (victim : Option ℕ) × (s' : P.State) × (P.next_victim s o
          ≡ some (op, victim, s'))
        × Ok s'
  pub able :
      (s s' : P.State) (o : ℕ) (op : Operation) (victim : Option ℕ) (result : Result)
      → Ok s
      → P.next_victim s o ≡ some (op, victim, s')
      → is_fail P op ≡ false
      → (s'' : P.State) × (result' : Result) × (P.map s' o false result ≡ some (s'', result'))
        × Ok s''

-- The result that a caller hands in.
abbrev pub no_result : Result
no_result = record { op = Operation.hit; old_oblock = 0; cblock = 0; dirty_eviction = false }

-- The accesses of a trace, one after the other: the block, and whether it is written.
unfoldable pub run : (P : Policy) → Fomo P → List (ℕ × Bool) → Option (Fomo P)
run P f [] = some f
run P f ((o, write) ∷ accesses) = map P f o write no_result >>= λ r. run P r.0 accesses

-- FOMO is sound: it shows some history, its counts are those of a period, and the wrapped policy
-- is in one of the states `Ok`.
pub record IsSound (P : Policy) (Ok : P.State → Type 0) (f : Fomo P) : Type 0 where
  pub shown : List ℕ
  pub valid : IsValid P f shown
  pub cache_count : ℕ
  pub history_count : ℕ
  pub counted : Counted P f cache_count history_count
  pub inner : Ok f.internal

module _ (P : Policy) (Ok : P.State → Type 0) (keeps : Keeps P Ok) where
  -- FOMO after an access that was decided, and one that failed.
  settled-IsSound :
      (f : Fomo P) (o : ℕ) (s : IsSound P Ok f) (g : Ghost) (t : P.State)
      → IsValid P (settled P f s.shown s.valid o g t) (expected P f s.shown s.valid o)
      → Ok t
      → IsSound P Ok (settled P f s.shown s.valid o g t)
  settled-IsSound f o s g t v inner = record {
    shown = expected P f s.shown s.valid o;
    valid = v;
    cache_count = _;
    history_count = _;
    counted =
        counted-after P f s.counted s.shown (cached P f s.shown s.valid o)
          (P.pool_is_full (asked P f s.shown s.valid o)) o g t;
    inner = inner;
  }

  failed-IsSound :
      (f : Fomo P) (s : IsSound P Ok f) (g : Ghost) (t : P.State)
      → IsValid P (record f { ghost = g; internal = t }) s.shown
      → Ok t
      → IsSound P Ok (record f { ghost = g; internal = t })
  failed-IsSound f s g t v inner = record {
    shown = s.shown;
    valid = v;
    cache_count = s.cache_count;
    history_count = s.history_count;
    counted = record {
      c_hits = s.counted.c_hits;
      mh_hits = s.counted.mh_hits;
      cache_bound = s.counted.cache_bound;
      history_bound = s.counted.history_bound;
      running = s.counted.running;
      small = s.counted.small;
    };
    inner = inner;
  }

  -- An access returns, and leaves FOMO sound.
  pub map-IsSound :
      (f : Fomo P) (o : ℕ) (write : Bool) (result : Result)
      → IsSound P Ok f
      → (f' : Fomo P) × (result' : Result) × (map P f o write result ≡ some (f', result'))
        × IsSound P Ok f'
  map-IsSound f o write result s =
      let v = s.valid in
      let ok = keeps.ask f.internal o s.inner in
      elim (Bool-cases (decided P f s.shown v o).filter) [
        | inl yes_filter ↦
            let (g, mapped, v') = map-filtered P f s.shown v o write result yes_filter in
            (
              settled P f s.shown v o g (asked P f s.shown v o),
              _,
              mapped,
              settled-IsSound f o s g (asked P f s.shown v o) v' ok,
            )
        | inr passed ↦
            let (op, victim, t, chosen, ok_t) = keeps.choose (asked P f s.shown v o) o ok in
            elim (Bool-cases (is_fail P op)) [
              | inl unable ↦
                  let (mapped, v') = map-failed P f s.shown v o write result passed chosen unable in
                  (_, _, mapped, failed-IsSound f s (Ghost.find f.ghost o).1 t v' ok_t)
              | inr able ↦
                  let (t', result', mapped, ok_t') =
                    keeps.able (asked P f s.shown v o) t o op victim
                      (record result { op = Operation.fail }) ok chosen able in
                  let (g, forwarded, v') =
                    map-forwarded P f s.shown v o write result result' passed chosen able mapped in
                  (
                    settled P f s.shown v o g t',
                    result',
                    forwarded,
                    settled-IsSound f o s g t' v' ok_t',
                  )
            ]
      ]

  -- From a sound FOMO a trace of accesses of any length runs to its end without a fault and leaves
  -- FOMO sound, if the wrapped policy keeps the promises of `Keeps` in every state that it can be
  -- in.
  pub run-IsSound :
      (f : Fomo P) (accesses : List (ℕ × Bool))
      → IsSound P Ok f
      → (f' : Fomo P) × (run P f accesses ≡ some f') × IsSound P Ok f'
  unfolding run
  run-IsSound f [] s = (f, refl, s)
  run-IsSound f ((o, write) ∷ accesses) s =
      let (f', r, mapped, s') = map-IsSound f o write no_result s in
      let (f'', ran, s'') = run-IsSound f' accesses s' in (f'', rw mapped ran, s'')
