-- ===== src/Fomo/Refine.antt =====
-- src/fomo/fomo_policy.c: an access to FOMO, against the decision and the history that it should
-- make of it.
use fomo.Base.{
  ℕ, ◌≤◌, ◌<◌, ◌≡◌, List, Bool, true, false, Option, some, mem, length, not, is_some, sym, ◌∙◌, ap,
  subst₂, arith,
}
use fomo.Entry.Stats.{inc_filters}
use fomo.Ghost
use fomo.Ghost.{Ghost, history}
use fomo.Ghost.Valid.{Shows}
use fomo.Ghost.Find.{find-Shows, is_some-find}
use fomo.Ghost.Steps.{stats-Shows}
use fomo.Nucleus.{Operation, Result}
use fomo.Nucleus.Policy.{Policy}
use fomo.Fomo.{Fomo, Transaction}
use fomo.Fomo.Decide.{
  count_hits, end_period, set_filter, transaction_init, transaction_set, is_fail,
  transaction_is_legal,
}
use fomo.Fomo.Commit.{note_access, forward, transaction_commit, map}
use fomo.Fomo.History.{history_after, note_access-Shows, length-history_after}

module _ (P : Policy) where
  -- FOMO shows the history `h`, within its size.
  pub record IsValid (f : Fomo P) (h : List ℕ) : Type 0 where
    pub shows : Shows f.ghost_size f.ghost h
    pub within : length h ≤ f.ghost_size
    pub positive : 0 < f.ghost_size
    pub period : 0 < f.period_size

  -- What FOMO should decide on an access to the block `o`: `cached` tells whether the wrapped
  -- policy has it in its cache, `full` whether that cache is full.
  unfoldable pub decision : Fomo P → List ℕ → Bool → Bool → ℕ → Transaction
  decision f h cached full o =
      set_filter
        (end_period full f.period_size (count_hits cached (mem o h) (transaction_init P f o)))

  -- The parts of an access, one after the other.
  module _ (f : Fomo P) (ft : Transaction) where
    pub legal-filtered : ft.filter ≡ true → transaction_is_legal P f ft ≡ some (true, f)
    unfolding transaction_is_legal
    legal-filtered e = ground arith

    pub legal-passed :
        {op : Operation} {victim : Option ℕ} {s : P.State}
        → ft.filter ≡ false
        → P.next_victim f.internal ft.oblock ≡ some (op, victim, s)
        → transaction_is_legal P f ft ≡ some (not (is_fail P op), record f { internal = s })
    unfolding transaction_is_legal
    legal-passed e p = ground arith

    commit-eq :
        (result : Result) {g : Ghost}
        → note_access f.ghost_size ft.state ft f.ghost ≡ some g
        → transaction_commit P f ft result
          ≡ forward P
              (record f {
                ghost = g;
                counter = ft.counter;
                c_hits = ft.c_hits;
                mh_hits = ft.mh_hits;
                state = ft.state;
                mh_hits_total = ft.mh_hits_total;
              })
              ft
              result
    unfolding transaction_commit
    commit-eq result n = rw n

    forward-filtered :
        (result : Result)
        → ft.filter ≡ true
        → forward P f ft result
          ≡ some (
            record f {
              ghost = record f.ghost {
                nucleus = record f.ghost.nucleus { stats = inc_filters f.ghost.nucleus.stats };
              };
            },
            record result { op = Operation.filter },
          )
    unfolding forward
    forward-filtered result e = ground arith

    forward-passed :
        (result : Result) {result' : Result} {s : P.State}
        → ft.filter ≡ false
        → P.map f.internal ft.oblock false result ≡ some (s, result')
        → forward P f ft result ≡ some (record f { internal = s }, result')
    unfolding forward
    forward-passed result e p = ground arith

  module _ (f : Fomo P) (o : ℕ) (write : Bool) (result : Result) {f' f'' : Fomo P}
      {ft : Transaction} (set : transaction_set P f (transaction_init P f o) ≡ (f', ft)) where
    map-legal :
        transaction_is_legal P f' ft ≡ some (true, f'')
        → map P f o write result
          ≡ transaction_commit P f'' ft (record result { op = Operation.fail })
    unfolding map
    map-legal legal = rw (set, legal)

    map-illegal :
        transaction_is_legal P f' ft ≡ some (false, f'')
        → map P f o write result ≡ some (f'', record result { op = Operation.fail })
    unfolding map
    map-illegal legal = rw (set, legal)

  module _ (f : Fomo P) (h : List ℕ) (v : IsValid f h) (o : ℕ) where
    -- The wrapped policy after it has been asked for the block, and whether it has it.
    abbrev pub asked : P.State
    asked = (P.cache_lookup f.internal o).1

    abbrev pub cached : Bool
    cached = is_some (P.cache_lookup f.internal o).0

    abbrev pub decided : Transaction
    decided = decision f h cached (P.pool_is_full asked) o

    -- FOMO after the lookups.
    abbrev pub looked : Fomo P
    looked = record f { ghost = (Ghost.find f.ghost o).1; internal = asked }

    pub set-decided : transaction_set P f (transaction_init P f o) ≡ (looked, decided)
    unfolding transaction_set transaction_init decision
    set-decided = rw (is_some-find f.ghost o v.shows)

    pub decided_fields :
        (decided.oblock ≡ o) × (decided.c_hit ≡ cached) × (decided.mh_hit ≡ mem o h)
    unfolding decision set_filter end_period count_hits transaction_init
    decided_fields = ground arith

    -- FOMO after the decision is taken over.
    abbrev pub settled : Ghost → P.State → Fomo P
    settled g s = record f {
      ghost = g;
      internal = s;
      counter = decided.counter;
      c_hits = decided.c_hits;
      mh_hits = decided.mh_hits;
      state = decided.state;
      mh_hits_total = decided.mh_hits_total;
    }

    -- The history that the access should leave.
    abbrev pub expected : List ℕ
    expected = history_after f.ghost_size decided.state cached o h

    noted :
        (g : Ghost) × (note_access f.ghost_size decided.state decided looked.ghost ≡ some g)
        × Shows f.ghost_size g expected
    noted =
        let (g, noted, s) =
          note_access-Shows looked.ghost (find-Shows f.ghost o v.shows) f.ghost_size decided.state
            decided (decided_fields.2 ∙ ap (λ a. mem a h) (sym decided_fields.0)) v.positive
            v.within (omega arith) in
        (
          g,
          noted,
          subst₂ (λ c a. Shows f.ghost_size g (history_after f.ghost_size decided.state c a h))
              decided_fields.1 decided_fields.0 s,
        )

    settled-IsValid :
        (g : Ghost) (s : P.State) → Shows f.ghost_size g expected → IsValid (settled g s) expected
    settled-IsValid g s shows = record {
      shows = shows;
      within =
          length-history_after f.ghost v.shows f.ghost_size decided.state cached o v.positive
            v.within;
      positive = v.positive;
      period = v.period;
    }

    -- On a valid FOMO, an access that is decided to be filtered does not reach the wrapped policy
    -- beyond its lookup: it is reported as filtered, FOMO takes the decision over, and it stays
    -- valid with the history of the specification.
    pub map-filtered :
        (write : Bool) (result : Result)
        → decided.filter ≡ true
        → (g : Ghost) × (map P f o write result
            ≡ some (settled g asked, record result { op = Operation.filter }))
          × IsValid (settled g asked) expected
    map-filtered write result filtered =
        let (g, n, s) = noted in
        let g' = record g { nucleus = record g.nucleus { stats = inc_filters g.nucleus.stats } } in
        (
          g',
          map-legal f o write result set-decided (legal-filtered looked decided filtered)
              ∙ commit-eq looked decided (record result { op = Operation.fail }) n
              ∙ forward-filtered (settled g asked) decided _ filtered,
          settled-IsValid g' asked (stats-Shows g (inc_filters g.nucleus.stats) s),
        )

    -- On a valid FOMO, an access that is not to be filtered, for which the wrapped policy does not
    -- announce a failure, and which it makes as a read, returns the result of the wrapped policy;
    -- FOMO takes the decision over and stays valid with the history of the specification.
    pub map-forwarded :
        (write : Bool) (result result' : Result) {op : Operation} {victim : Option ℕ}
        {s s' : P.State}
        → decided.filter ≡ false
        → P.next_victim asked o ≡ some (op, victim, s)
        → is_fail P op ≡ false
        → P.map s o false (record result { op = Operation.fail }) ≡ some (s', result')
        → (g : Ghost) × (map P f o write result ≡ some (settled g s', result'))
          × IsValid (settled g s') expected
    map-forwarded write result result' {op = op} {s = s} {s' = s'} passed victim able mapped =
        let (g, n, shows) = noted in
        (
          g,
          map-legal f o write result set-decided (
                legal-passed looked decided passed
                  (ap (P.next_victim asked) decided_fields.0 ∙ victim)
                ∙ ap (λ b. some (not b, record looked { internal = s })) able)
              ∙ commit-eq (record looked { internal = s }) decided
                  (record result { op = Operation.fail }) n
              ∙ forward-passed (settled g s) decided _ passed (
                  ap (λ a. P.map s a false (record result { op = Operation.fail })) decided_fields.0
                  ∙ mapped),
          settled-IsValid g s' shows,
        )

    -- On a valid FOMO, an access that is not to be filtered and for which the wrapped policy
    -- announces a failure is reported as failed, and FOMO stays valid with the same history,
    -- state, counts and period.
    pub map-failed :
        (write : Bool) (result : Result) {op : Operation} {victim : Option ℕ} {s : P.State}
        → decided.filter ≡ false
        → P.next_victim asked o ≡ some (op, victim, s)
        → is_fail P op ≡ true
        → (map P f o write result
            ≡ some (record looked { internal = s }, record result { op = Operation.fail }))
          × IsValid (record looked { internal = s }) h
    map-failed write result {op = op} {s = s} passed victim unable = (
      map-illegal f o write result set-decided (
          legal-passed looked decided passed (ap (P.next_victim asked) decided_fields.0 ∙ victim)
          ∙ ap (λ b. some (not b, record looked { internal = s })) unable),
      record {
        shows = find-Shows f.ghost o v.shows;
        within = v.within;
        positive = v.positive;
        period = v.period;
      },
    )
