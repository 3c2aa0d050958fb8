-- ===== src/Tests/Larc.antt =====
-- LARC on small caches: what its theorems say of some accesses.
use fomo.Base.{
  ℕ, ◌≡◌, ◌+◌, ◌%◌, refl, sym, ap, subst, List, [], ◌∷◌, Bool, true, false, Option, none, some, not,
  ◌&&◌, ◌==◌, arith, ◌>>=◌, is_some, ◌++◌, remove,
}
use fomo.Entry.{Memory}
use fomo.Entry.Stats.{zeros}
use fomo.Pool.{in_pool, create}
use fomo.Queue
use fomo.Queue.{no_queues}
use fomo.Nucleus
use fomo.Nucleus.{Operation, Result, Nucleus}
use fomo.Nucleus.Valid.{live, oblock_of, in_cache_pool}
use fomo.Larc.{Larc, q_list, g_list}
use fomo.Larc.Access.{map}
use fomo.Larc.Api
use fomo.Larc.Api.{init, as_policy, next_victim}
use fomo.Larc.Remove.{demoted}
use fomo.Larc.Victim.{next_victim-outcome, choice, victim_at}
use fomo.Larc.Commit.{looked}
use fomo.Larc.Whole.{fomo_over_larc_runs, mstar_over_larc_runs}
use fomo.Fomo.{Fomo}
use fomo.Fomo.Create
use fomo.Fomo.Runs
use fomo.Mstar.Policy.{Mstar}
use fomo.Mstar.Policy as MstarPolicy
use fomo.Mstar.Policy.Runs as MstarRuns
use fomo.Larc.Valid.{IsValid}
use fomo.Larc.Start.{larc_init-IsValid}
use fomo.Larc.Map.{map-outcome, outcome, comes_in}
use fomo.Larc.Steps.{Done}
use fomo.Larc.Handlers.{larc_migrated-IsValid, larc_remove-IsValid}
use fomo.Tests.Wrapped.{parity, some_memory}
use fomo.Fomo.Runs.{no_result}

-- Two blocks in the cache and ten ghosts.
apart : (e : ℕ) → in_pool (create 100 2) e ≡ true → in_pool (create 200 10) e ≡ false
unfolding in_pool create
apart e i = ground arith

-- The state that an operation leaves.
first : Larc → Option (Larc × Result) → Larc
first l none = l
first l (some (l', result)) = l'

some_larc : Larc
some_larc = record {
  nucleus = record {
    meta_size = 0;
    cache_size = 0;
    meta_pool = create 0 0;
    cache_pool = create 0 0;
    stats = zeros;
    ht = record { nr_buckets = 0; hash_bits = 0; table = λ _. []; hash_64 = parity };
    time = 0;
    mem = some_memory;
  };
  queues = no_queues;
  g_size = 0;
}

made_or : Option Larc → Larc → Larc
made_or none d = d
made_or (some l) d = l

new_larc : Larc
new_larc = made_or (init parity some_memory 100 200 2 10) some_larc

new_larc-IsValid : IsValid new_larc
unfolding new_larc made_or
new_larc-IsValid =
    let (l, made, v, _) =
      larc_init-IsValid parity some_memory 100 200 2 10 (omega arith) (omega arith) (omega arith)
        (omega arith) apart in
    subst (λ o. IsValid (made_or o some_larc)) (sym made) v

-- After an access.
accessed : Larc → ℕ → Larc
accessed l o = first l (map l o true no_result)

accessed-IsValid : (l : Larc) (o : ℕ) → IsValid l → IsValid (accessed l o)
unfolding accessed first
accessed-IsValid l o v =
    let d = map-outcome l o true no_result v in
    subst (λ r. IsValid (first l r)) (sym d.returns) d.valid

-- After the end of a migration.
arrive : Larc → ℕ → Larc
arrive l o = made_or (Api.migrated l o) l

arrive-IsValid :
    (l : Larc) (o e : ℕ)
    → IsValid l
    → live l.nucleus e ≡ true
    → oblock_of l.nucleus e ≡ o
    → in_cache_pool l.nucleus e ≡ true
    → (l.nucleus.mem.entry e).migrating ≡ true
    → IsValid (arrive l o)
unfolding arrive made_or
arrive-IsValid l o e v on block inside moving =
    let (l', ran, v', _, _) = larc_migrated-IsValid l o e v on block inside moving in
    subst (λ r. IsValid (made_or r l)) (sym ran) v'

-- One block in the cache, then two of them, then a ghost besides.
one_in : Larc
one_in = accessed new_larc 5

one_in-moving :
    (live one_in.nucleus 101 ≡ true)
    × (oblock_of one_in.nucleus 101 ≡ 5)
    × (in_cache_pool one_in.nucleus 101 ≡ true)
    × ((one_in.nucleus.mem.entry 101).migrating ≡ true)
unfolding one_in accessed first made_or new_larc Api.init in_pool create map
    fomo.Larc.transaction_set Nucleus.in_cache Nucleus.lookup fomo.Table.lookup
    fomo.Table.chain_find Nucleus.policy_init fomo.Pool.init fomo.Pool.init_from fomo.Pool.at
    fomo.Base.remove fomo.Entry.Stats.inc_demotions fomo.Entry.Stats.inc_filters
    fomo.Entry.Stats.inc_hits fomo.Entry.Stats.inc_ios fomo.Entry.Stats.inc_misses
    fomo.Entry.name_entry fomo.Larc.Access.evict fomo.Larc.Access.is_q fomo.Larc.Access.leave_ghost
    fomo.Larc.Access.make_room fomo.Nucleus.note_write fomo.Larc.Access.place
    fomo.Larc.Access.remove_entry fomo.Larc.Access.renew fomo.Larc.Access.shelve
    fomo.Larc.Access.stock fomo.Larc.Access.transaction_commit fomo.Larc.Access.trim
    fomo.Larc.decrease_g_size fomo.Larc.increase_g_size fomo.Larc.set_miss
    fomo.Larc.transaction_init fomo.Larc.transaction_is_legal Nucleus.alloc_pool_entry
    Nucleus.cache_is_full Nucleus.in_meta Nucleus.insert_in_cache Nucleus.insert_in_meta
    Nucleus.remove_entry fomo.Pool.alloc_entry fomo.Pool.alloc_this_entry fomo.Pool.empty
    fomo.Pool.free_entry fomo.Pool.infer_cblock fomo.Pool.migrating_entry Queue.head_init Queue.init
    Queue.peek Queue.push Queue.take_out fomo.Table.ffs_from fomo.Table.init fomo.Table.insert
    fomo.Table.next_power fomo.Table.power_from fomo.Table.take_out some_larc
one_in-moving = (refl, refl, refl, refl)

one_in-IsValid : IsValid one_in
unfolding one_in
one_in-IsValid = accessed-IsValid new_larc 5 new_larc-IsValid

two_moving : Larc
two_moving = accessed (arrive one_in 5) 6

two_moving-fields :
    (live two_moving.nucleus 100 ≡ true)
    × (oblock_of two_moving.nucleus 100 ≡ 6)
    × (in_cache_pool two_moving.nucleus 100 ≡ true)
    × ((two_moving.nucleus.mem.entry 100).migrating ≡ true)
unfolding two_moving one_in arrive Api.migrated fomo.Pool.migrated_entry accessed first made_or
    new_larc Api.init in_pool create map fomo.Larc.transaction_set Nucleus.in_cache Nucleus.lookup
    fomo.Table.lookup fomo.Table.chain_find Nucleus.policy_init fomo.Pool.init fomo.Pool.init_from
    fomo.Pool.at fomo.Base.remove fomo.Entry.Stats.inc_demotions fomo.Entry.Stats.inc_filters
    fomo.Entry.Stats.inc_hits fomo.Entry.Stats.inc_ios fomo.Entry.Stats.inc_misses
    fomo.Entry.name_entry fomo.Larc.Access.evict fomo.Larc.Access.is_q fomo.Larc.Access.leave_ghost
    fomo.Larc.Access.make_room fomo.Nucleus.note_write fomo.Larc.Access.place
    fomo.Larc.Access.remove_entry fomo.Larc.Access.renew fomo.Larc.Access.shelve
    fomo.Larc.Access.stock fomo.Larc.Access.transaction_commit fomo.Larc.Access.trim
    fomo.Larc.decrease_g_size fomo.Larc.increase_g_size fomo.Larc.set_miss
    fomo.Larc.transaction_init fomo.Larc.transaction_is_legal Nucleus.alloc_pool_entry
    Nucleus.cache_is_full Nucleus.in_meta Nucleus.insert_in_cache Nucleus.insert_in_meta
    Nucleus.remove_entry fomo.Pool.alloc_entry fomo.Pool.alloc_this_entry fomo.Pool.empty
    fomo.Pool.free_entry fomo.Pool.infer_cblock fomo.Pool.migrating_entry Queue.head_init Queue.init
    Queue.peek Queue.push Queue.take_out fomo.Table.ffs_from fomo.Table.init fomo.Table.insert
    fomo.Table.next_power fomo.Table.power_from fomo.Table.take_out some_larc
two_moving-fields = (refl, refl, refl, refl)

two_moving-IsValid : IsValid two_moving
unfolding two_moving
two_moving-IsValid =
    let (on, block, inside, moving) = one_in-moving in
    accessed-IsValid (arrive one_in 5) 6
      (arrive-IsValid one_in 5 101 one_in-IsValid on block inside moving)

ghost_in : Larc
ghost_in = accessed (arrive two_moving 6) 7

ghost_in-IsValid : IsValid ghost_in
unfolding ghost_in
ghost_in-IsValid =
    let (on, block, inside, moving) = two_moving-fields in
    accessed-IsValid (arrive two_moving 6) 7
      (arrive-IsValid two_moving 6 100 two_moving-IsValid on block inside moving)

ghost_in-outcome : outcome ghost_in 7 ≡ Operation.replace
unfolding ghost_in two_moving one_in arrive Api.migrated fomo.Pool.migrated_entry accessed first
    made_or new_larc Api.init in_pool create map fomo.Larc.transaction_set Nucleus.in_cache
    Nucleus.lookup fomo.Table.lookup fomo.Table.chain_find Nucleus.policy_init fomo.Pool.init
    fomo.Pool.init_from fomo.Pool.at fomo.Base.remove fomo.Entry.Stats.inc_demotions
    fomo.Entry.Stats.inc_filters fomo.Entry.Stats.inc_hits fomo.Entry.Stats.inc_ios
    fomo.Entry.Stats.inc_misses fomo.Entry.name_entry fomo.Larc.Access.evict fomo.Larc.Access.is_q
    fomo.Larc.Access.leave_ghost fomo.Larc.Access.make_room fomo.Nucleus.note_write
    fomo.Larc.Access.place fomo.Larc.Access.remove_entry fomo.Larc.Access.renew
    fomo.Larc.Access.shelve fomo.Larc.Access.stock fomo.Larc.Access.transaction_commit
    fomo.Larc.Access.trim fomo.Larc.decrease_g_size fomo.Larc.increase_g_size fomo.Larc.set_miss
    fomo.Larc.transaction_init fomo.Larc.transaction_is_legal Nucleus.alloc_pool_entry
    Nucleus.cache_is_full Nucleus.in_meta Nucleus.insert_in_cache Nucleus.insert_in_meta
    Nucleus.remove_entry fomo.Pool.alloc_entry fomo.Pool.alloc_this_entry fomo.Pool.empty
    fomo.Pool.free_entry fomo.Pool.infer_cblock fomo.Pool.migrating_entry Queue.head_init Queue.init
    Queue.peek Queue.push Queue.take_out fomo.Table.ffs_from fomo.Table.init fomo.Table.insert
    fomo.Table.next_power fomo.Table.power_from fomo.Table.take_out some_larc
ghost_in-outcome = refl

-- The two cached blocks are 5 and 6, and 7 comes for the second time: 5 makes room.
map-outcome_example : Done (map ghost_in 7 true no_result) 7 Operation.replace true
map-outcome_example =
    subst (λ op. Done (map ghost_in 7 true no_result) 7 op (comes_in op)) ghost_in-outcome
      (map-outcome ghost_in 7 true no_result ghost_in-IsValid)

next_victim-outcome_example :
    next_victim ghost_in 7
    ≡ some (Operation.replace, Queue.peek ghost_in.queues q_list, looked ghost_in 7)
next_victim-outcome_example =
    subst
      (λ op.
        next_victim ghost_in 7
        ≡ some (
          choice op (is_some (Nucleus.lookup ghost_in.nucleus 7).0),
          victim_at ghost_in op,
          looked ghost_in 7,
        ))
      ghost_in-outcome (next_victim-outcome ghost_in 7 ghost_in-IsValid)

larc_remove-IsValid_example :
    (l' : Larc) × (Api.remove one_in 5 false ≡ some l')
    × IsValid l'
    × ((a : ℕ) → live l'.nucleus a ≡ (live one_in.nucleus a && not (a == 101)))
    × (l'.queues.items q_list ≡ remove 101 (one_in.queues.items q_list))
    × (l'.queues.items g_list ≡ remove 101 (one_in.queues.items g_list))
    × ((a : ℕ) → (a == 101) ≡ false → l'.nucleus.mem.entry a ≡ one_in.nucleus.mem.entry a)
    × (l'.nucleus.stats ≡ demoted one_in 101)
    × (l'.nucleus.time ≡ one_in.nucleus.time)
    × (l'.g_size ≡ one_in.g_size)
larc_remove-IsValid_example =
    larc_remove-IsValid one_in 5 101 one_in-IsValid one_in-moving.0 one_in-moving.1 false

larc_migrated-IsValid_example :
    (l' : Larc) × (Api.migrated two_moving 6 ≡ some l')
    × IsValid l'
    × ((l'.nucleus.mem.entry 100).migrating ≡ false)
    × (l'.queues.items q_list ≡ two_moving.queues.items q_list ++ 100 ∷ [])
larc_migrated-IsValid_example =
    larc_migrated-IsValid two_moving 6 100 two_moving-IsValid two_moving-fields.0
      two_moving-fields.1 two_moving-fields.2 two_moving-fields.3

-- Two reads, a write and a read.
abbrev trace : List (ℕ × Bool)
trace = (5, false) ∷ (6, false) ∷ (5, true) ∷ (7, false) ∷ []

fomo_over_larc_runs_example :
    (l : Larc) × (f f' : Fomo as_policy) × (init parity some_memory 100 200 2 10 ≡ some l)
    × (Create.init as_policy parity some_memory 300 4 l ≡ some f)
    × (Runs.run as_policy f trace ≡ some f')
    × Runs.IsSound as_policy IsValid f'
fomo_over_larc_runs_example =
    fomo_over_larc_runs parity some_memory 100 200 2 10 (omega arith) (omega arith) (omega arith)
      (omega arith) apart parity some_memory 300 4 (omega arith) (omega arith) trace

mstar_over_larc_runs_example :
    (l : Larc) × (s s' : Mstar as_policy) × (init parity some_memory 100 200 2 10 ≡ some l)
    × (MstarPolicy.init as_policy parity some_memory 300 10 true l ≡ some s)
    × (MstarRuns.run as_policy s trace no_result ≡ some s')
    × MstarRuns.IsSound as_policy IsValid 10 s'
mstar_over_larc_runs_example =
    mstar_over_larc_runs parity some_memory 100 200 2 10 (omega arith) (omega arith) (omega arith)
      (omega arith) apart parity some_memory 300 10 true (omega arith) (omega arith) trace no_result
