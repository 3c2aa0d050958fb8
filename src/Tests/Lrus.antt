-- ===== src/Tests/Lrus.antt =====
-- LRU on a small cache: what its theorems say of some accesses.
use fomo.Base.{
  ℕ, ◌≡◌, refl, sym, subst, remove, [], ◌∷◌, ◌++◌, true, false, Option, none, some, ◌==◌, ◌&&◌, not,
  arith,
}
use fomo.Entry.Stats.{zeros}
use fomo.Pool.{create, in_pool}
use fomo.Queue.{no_queues}
use fomo.Nucleus.{Operation, Result, lookup, cache_is_full}
use fomo.Nucleus.Valid.{live, oblock_of}
use fomo.Fomo.{Fomo}
use fomo.Fomo.Create
use fomo.Fomo.Runs
use fomo.Fomo.Runs.{no_result}
use fomo.Lru.{Lru, lru_q, map}
use fomo.Lru.Api
use fomo.Lru.Api.{init, as_policy, next_victim}
use fomo.Lru.Valid.{IsValid, looked}
use fomo.Lru.Map.{outcome, comes_in, Done, lru_map-outcome}
use fomo.Lru.Handlers.{lru_remove-IsValid, lru_migrated-IsValid}
use fomo.Lru.Parts.{demoted}
use fomo.Mstar.Policy as MstarPolicy
use fomo.Mstar.Policy.Runs as MstarRuns
use fomo.Lru.Whole.{
  lru_init-IsValid, lru_next_victim-outcome, victim_at, fomo_over_lru_runs, mstar_over_lru_runs,
}
use fomo.Tests.Wrapped.{parity, some_memory}

some_lru : Lru
some_lru = record {
  nucleus = record {
    meta_size = 0;
    cache_size = 0;
    meta_pool = create 0 0;
    cache_pool = create 0 0;
    stats = zeros;
    ht = record { nr_buckets = 0; hash_bits = 0; table = λ _. []; hash_64 = parity };
    time = 0;
    mem = some_memory;
  };
  queues = no_queues;
}

made_or : Option Lru → Lru → Lru
made_or none d = d
made_or (some l) d = l

-- The state that an operation leaves.
first : Lru → Option (Lru × Result) → Lru
first l none = l
first l (some (l', result)) = l'

new_lru : Lru
new_lru = made_or (init parity some_memory 100 2) some_lru

new_lru-IsValid : IsValid new_lru
unfolding new_lru made_or
new_lru-IsValid =
    let (l, made, v) = lru_init-IsValid parity some_memory 100 2 (omega arith) (omega arith) in
    subst (λ o. IsValid (made_or o some_lru)) (sym made) v

-- After an access to one block, whose entry is on the move.
one_in : Lru
one_in = first new_lru (map new_lru 5 true no_result)

one_in-IsValid : IsValid one_in
unfolding one_in first
one_in-IsValid =
    let d = lru_map-outcome new_lru 5 true no_result new_lru-IsValid in
    subst (λ r. IsValid (first new_lru r)) (sym d.returns) d.valid

one_in-moving :
    (live one_in.nucleus 101 ≡ true)
    × (oblock_of one_in.nucleus 101 ≡ 5)
    × ((one_in.nucleus.mem.entry 101).migrating ≡ true)
unfolding one_in first new_lru some_lru made_or init map in_pool create fomo.Lru.transaction_init
    fomo.Lru.transaction_set fomo.Lru.transaction_is_legal fomo.Lru.transaction_commit
    fomo.Lru.make_room fomo.Lru.stock fomo.Lru.evict fomo.Lru.renew fomo.Lru.remove_entry lookup
    fomo.Nucleus.in_cache fomo.Nucleus.policy_init fomo.Nucleus.note_write
    fomo.Nucleus.alloc_pool_entry fomo.Nucleus.cache_is_full fomo.Nucleus.insert_in_cache
    fomo.Nucleus.remove_entry fomo.Table.lookup fomo.Table.chain_find fomo.Table.ffs_from
    fomo.Table.init fomo.Table.insert fomo.Table.next_power fomo.Table.power_from
    fomo.Table.take_out fomo.Pool.init fomo.Pool.init_from fomo.Pool.at fomo.Pool.alloc_entry
    fomo.Pool.alloc_this_entry fomo.Pool.empty fomo.Pool.free_entry fomo.Pool.infer_cblock
    fomo.Pool.migrating_entry fomo.Base.remove fomo.Entry.Stats.inc_ios fomo.Entry.Stats.inc_misses
    fomo.Entry.name_entry fomo.Queue.init
one_in-moving = (refl, refl, refl)

lru_migrated-IsValid_example :
    (l' : Lru) × (Api.migrated one_in 5 ≡ some l')
    × IsValid l'
    × ((l'.nucleus.mem.entry 101).migrating ≡ false)
    × (l'.queues.items lru_q ≡ one_in.queues.items lru_q ++ 101 ∷ [])
lru_migrated-IsValid_example =
    lru_migrated-IsValid one_in 5 101 one_in-IsValid one_in-moving.0 one_in-moving.1 one_in-moving.2

lru_remove-IsValid_example :
    (l' : Lru) × (Api.remove one_in 5 false ≡ some l')
    × IsValid l'
    × (cache_is_full l'.nucleus ≡ false)
    × ((a : ℕ) → live l'.nucleus a ≡ (live one_in.nucleus a && not (a == 101)))
    × (l'.queues.items lru_q ≡ remove 101 (one_in.queues.items lru_q))
    × ((a : ℕ) → (a == 101) ≡ false → l'.nucleus.mem.entry a ≡ one_in.nucleus.mem.entry a)
    × (l'.nucleus.stats ≡ demoted one_in 101)
    × (l'.nucleus.time ≡ one_in.nucleus.time)
lru_remove-IsValid_example =
    lru_remove-IsValid one_in 5 101 one_in-IsValid one_in-moving.0 one_in-moving.1 false

new_lru-outcome : outcome new_lru 5 ≡ Operation.new
unfolding new_lru lookup fomo.Table.lookup fomo.Table.chain_find made_or init
    fomo.Nucleus.policy_init fomo.Pool.init fomo.Pool.init_from create fomo.Pool.at fomo.Table.init
    fomo.Table.next_power fomo.Table.power_from fomo.Nucleus.cache_is_full fomo.Pool.empty
new_lru-outcome = refl

lru_map-outcome_example : Done (map new_lru 5 true no_result) 5 Operation.new true
lru_map-outcome_example =
    subst (λ op. Done (map new_lru 5 true no_result) 5 op (comes_in op)) new_lru-outcome
      (lru_map-outcome new_lru 5 true no_result new_lru-IsValid)

lru_next_victim-outcome_example :
    next_victim new_lru 5 ≡ some (Operation.new, none, looked new_lru 5)
lru_next_victim-outcome_example =
    subst (λ op. next_victim new_lru 5 ≡ some (op, victim_at new_lru op, looked new_lru 5))
      new_lru-outcome (lru_next_victim-outcome new_lru 5 new_lru-IsValid)

fomo_over_lru_runs_example :
    (l : Lru) × (f f' : Fomo as_policy) × (init parity some_memory 100 2 ≡ some l)
    × (Create.init as_policy parity some_memory 300 4 l ≡ some f)
    × (Runs.run as_policy f ((5, false) ∷ (6, true) ∷ (5, false) ∷ (7, false) ∷ []) ≡ some f')
    × Runs.IsSound as_policy IsValid f'
fomo_over_lru_runs_example =
    fomo_over_lru_runs parity some_memory 100 2 (omega arith) (omega arith) parity some_memory 300 4
      (omega arith) (omega arith) ((5, false) ∷ (6, true) ∷ (5, false) ∷ (7, false) ∷ [])

mstar_over_lru_runs_example :
    (l : Lru) × (s s' : MstarPolicy.Mstar as_policy) × (init parity some_memory 100 2 ≡ some l)
    × (MstarPolicy.init as_policy parity some_memory 300 10 true l ≡ some s)
    × (MstarRuns.run as_policy s ((5, false) ∷ (6, true) ∷ (5, false) ∷ (7, false) ∷ []) no_result
        ≡ some s')
    × MstarRuns.IsSound as_policy IsValid 10 s'
mstar_over_lru_runs_example =
    mstar_over_lru_runs parity some_memory 100 2 (omega arith) (omega arith) parity some_memory 300
      10 true (omega arith) (omega arith) ((5, false) ∷ (6, true) ∷ (5, false) ∷ (7, false) ∷ [])
      no_result
