-- ===== src/Fomo/Handlers.antt =====
-- src/fomo/fomo_policy.c: what the handlers beside an access do to the miss history.
use fomo.Base.{
  ℕ, ◌≡◌, refl, List, Bool, Option, some, none, mem, remove, not, subst, ap, sym, ◌||◌, ◌∙◌,
  if◌then◌else◌, Bool-cases, inl, inr, arith, length-remove-le, remove_absent, ◌==◌, ==_refl,
}
use fomo.Ghost
use fomo.Ghost.{Ghost}
use fomo.Ghost.Valid.{Shows}
use fomo.Ghost.Find.{find-Shows, find_present, find_absent, find-IsEntry}
use fomo.Ghost.Steps.{drop-Shows}
use fomo.Ghost.Frame.{Spares, Spares-trans, find-Spares, drop-Spares}
use fomo.Nucleus.{Operation}
use fomo.Nucleus.Policy.{Policy}
use fomo.Fomo.{Fomo}
use fomo.Fomo.Decide.{is_fail, transaction_is_legal}
use fomo.Fomo.Api
use fomo.Fomo.Api.{next_victim}
use fomo.Fomo.Refine.{
  IsValid, asked, decided, looked, set-decided, decided_fields, legal-filtered, legal-passed,
}

module _ (P : Policy) (f : Fomo P) (h : List ℕ) (v : IsValid P f h) (o : ℕ) where
  -- The part of `fomo_remove` before the call of the wrapped policy.
  unlisted :
      (to_history : Bool)
      → (g : Ghost) × ((elim (Ghost.find f.ghost o).0 [
        | none ↦ some (Ghost.find f.ghost o).1
        | some e ↦
            if not to_history
            then Ghost.drop (Ghost.find f.ghost o).1 e
            else some (Ghost.find f.ghost o).1
      ])
          ≡ some g)
        × Shows f.ghost_size g (if to_history then h else remove o h)
        × Spares (λ b. b == o) f.ghost g
  unlisted to_history = elim (Bool-cases (mem o h)) [
    | inr absent ↦
        let same : (if to_history then h else remove o h) ≡ h =
          ground (arith, remove_absent o h absent) in
        (
          (Ghost.find f.ghost o).1,
          rw (find_absent f.ghost o v.shows.valid (rw v.shows.shown absent)) refl,
          subst (Shows f.ghost_size (Ghost.find f.ghost o).1) (sym same)
              (find-Shows f.ghost o v.shows),
          find-Spares f.ghost o,
        )
    | inl present ↦
        let (e, found) = find_present f.ghost o v.shows.valid (rw v.shows.shown present) in
        let entry = find-IsEntry f.ghost o v.shows.valid found in
        let (g, dropped, s) =
          drop-Shows (Ghost.find f.ghost o).1 (find-Shows f.ghost o v.shows) entry in
        elim (Bool-cases to_history) [
          | inl kept ↦ (
            (Ghost.find f.ghost o).1,
            rw (found, kept) refl,
            rw kept (find-Shows f.ghost o v.shows),
            find-Spares f.ghost o,
          )
          | inr gone ↦ (
            g,
            rw (found, gone) dropped,
            rw gone s,
            Spares-trans (find-Spares f.ghost o)
                (drop-Spares (find-Shows f.ghost o v.shows) entry (==_refl o) dropped),
          )
        ]
  ]

  -- On a valid FOMO, if the wrapped policy removes the block, `fomo_remove` succeeds, takes the
  -- block out of the miss history unless it may stay there, and FOMO stays valid. Its state,
  -- counts, period and size are as they were, and so are the statistics, the time, the sizes and
  -- the cache pool of its nucleus and every entry that does not hold the block.
  pub fomo_remove-IsValid :
      (to_history : Bool) {s : P.State}
      → P.remove f.internal o to_history ≡ some s
      → (g : Ghost) × (Api.remove P f o to_history ≡ some (record f { ghost = g; internal = s }))
        × IsValid P (record f { ghost = g; internal = s }) (if to_history then h else remove o h)
        × Spares (λ b. b == o) f.ghost g
  unfolding Api.remove
  fomo_remove-IsValid to_history {s} removed =
      let (g, kept, shows, spares) = unlisted to_history in
      (
        g,
        rw (kept, removed) refl,
        record {
          shows = shows;
          within = ground (arith, v.within, length-remove-le o h);
          positive = v.positive;
          period = v.period;
        },
        spares,
      )

  -- On a valid FOMO over a wrapped policy that answers twice: `fomo_next_victim` succeeds, leaves
  -- the history, the state, the counts and the period as they are, and answers that the access is
  -- filtered if that is the decision, that it fails if the wrapped policy says so the first time,
  -- and else what that says the second time.
  pub next_victim-IsValid :
      {op op' : Operation} {victim victim' : Option ℕ} {s s' : P.State}
      → P.next_victim (asked P f h v o) o ≡ some (op, victim, s)
      → P.next_victim s o ≡ some (op', victim', s')
      → (answer : Operation) × (who : Option ℕ) × (t : P.State) × (next_victim P f o
          ≡ some (answer, who, record (looked P f h v o) { internal = t }))
        × (answer ≡ (
            if (decided P f h v o).filter
            then Operation.filter
            else (if is_fail P op then Operation.fail else op')))
        × (who ≡ (if (decided P f h v o).filter || is_fail P op then none else victim'))
        × IsValid P (record (looked P f h v o) { internal = t }) h
  unfolding next_victim
  next_victim-IsValid {op} {op'} {victim} {victim'} {s} {s'} first second =
      let l = looked P f h v o in
      let d = decided P f h v o in
      let valid : (t : P.State) → IsValid P (record l { internal = t }) h = λ t. record {
        shows = find-Shows f.ghost o v.shows;
        within = v.within;
        positive = v.positive;
        period = v.period;
      } in
      elim (Bool-cases d.filter) [
        | inl filtered ↦ (
          Operation.filter,
          none,
          asked P f h v o,
          rw (set-decided P f h v o, legal-filtered P l d filtered, filtered) refl,
          rw filtered refl,
          rw filtered refl,
          valid (asked P f h v o),
        )
        | inr passed ↦
            let legal : transaction_is_legal P l d
                ≡ some (not (is_fail P op), record l { internal = s }) =
              legal-passed P l d passed
                (ap (P.next_victim (asked P f h v o)) (decided_fields P f h v o).0 ∙ first) in
            elim (Bool-cases (is_fail P op)) [
              | inl unable ↦ (
                Operation.fail,
                none,
                s,
                rw (set-decided P f h v o, legal, unable) refl,
                rw (passed, unable) refl,
                rw (passed, unable) refl,
                valid s,
              )
              | inr able ↦ (
                op',
                victim',
                s',
                rw (set-decided P f h v o, legal, able, passed, second) refl,
                rw (passed, able) refl,
                rw (passed, able) refl,
                valid s',
              )
            ]
      ]
