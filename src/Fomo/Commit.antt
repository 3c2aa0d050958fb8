-- ===== src/Fomo/Commit.antt =====
-- src/fomo/fomo_policy.c: what an access changes in the miss history, and what the wrapped policy
-- sees of it.
use fomo.Base.{ℕ, Bool, false, Option, some, ◌==◌, if◌then◌else◌, ◌>>=◌}
use fomo.Entry.Stats.{inc_filters}
use fomo.Ghost
use fomo.Ghost.{Ghost, mh}
use fomo.Nucleus.{Operation, Result}
use fomo.Nucleus.Policy.{Policy}
use fomo.Fomo.{Fomo, FomoState, Transaction}
use fomo.Fomo.Decide.{is_insert, transaction_init, transaction_set, transaction_is_legal}

-- `e = hash_lookup(..);` and the entry moves to the most recent end.
unfoldable pub renew : Ghost → ℕ → Option Ghost
renew g oblock = let (e?, g') = Ghost.find g oblock in e? >>= λ e. some (Ghost.bump g' e)

-- Evict from the miss history if needed.
unfoldable pub make_room : Ghost → ℕ → Option Ghost
make_room g ghost_size =
    if g.queues.len mh == ghost_size then (Ghost.oldest g >>= λ e. Ghost.drop g e) else some g

-- The changes of `fomo_transaction_commit` to the miss history, in the state `state`.
unfoldable pub note_access : ℕ → FomoState → Transaction → Ghost → Option Ghost
note_access ghost_size state ft g =
    if ft.c_hit
    then (if ft.mh_hit then Ghost.forget g ft.oblock else some g)
    else (if ft.mh_hit
        then (if is_insert state then renew g ft.oblock else Ghost.forget g ft.oblock)
        else (make_room g ghost_size >>= λ g'. Ghost.admit g' ft.oblock))

module _ (P : Policy) where
  -- The access is filtered, or goes to the wrapped policy, as a read.
  unfoldable pub forward : Fomo P → Transaction → Result → Option (Fomo P × Result)
  forward f ft result =
      if ft.filter
      then some (
        record f {
          ghost = record f.ghost {
            nucleus = record f.ghost.nucleus { stats = inc_filters f.ghost.nucleus.stats };
          };
        },
        record result { op = Operation.filter },
      )
      else (P.map f.internal ft.oblock false result >>= λ r.
          (let (s, result') = r in some (record f { internal = s }, result')))

  -- `fomo_transaction_commit`
  unfoldable pub transaction_commit : Fomo P → Transaction → Result → Option (Fomo P × Result)
  transaction_commit f ft result = note_access f.ghost_size ft.state ft f.ghost >>= λ g.
      forward
        (record f {
          ghost = g;
          counter = ft.counter;
          c_hits = ft.c_hits;
          mh_hits = ft.mh_hits;
          state = ft.state;
          mh_hits_total = ft.mh_hits_total;
        })
        ft result

  -- `fomo_map`: whether the access is a write is not used.
  unfoldable pub map : Fomo P → ℕ → Bool → Result → Option (Fomo P × Result)
  map f oblock write result =
      let (f', ft) = transaction_set P f (transaction_init P f oblock) in
      transaction_is_legal P f' ft >>= λ l.
      (let (legal, f'') = l in
        let failed = record result { op = Operation.fail } in
        if legal then transaction_commit f'' ft failed else some (f'', failed))
