-- ===== src/Larc/Access.antt =====
-- src/algs/larc/larc_policy.c: an access, from the evictions to the result.
use fomo.Base.{ℕ, Bool, true, false, Option, none, some, if◌then◌else◌, ◌>>=◌}
use fomo.Entry.Stats.{Stats, inc_ios, inc_hits, inc_misses, inc_filters, inc_demotions}
use fomo.Pool
use fomo.Queue
use fomo.Nucleus
use fomo.Nucleus.{Nucleus, Result, Operation, note_write}
use fomo.Larc.{
  Larc, Dest, Transaction, q_list, g_list, transaction_init, transaction_set, transaction_is_legal,
}

abbrev pub with_stats : Larc → (Stats → Stats) → Larc
with_stats l inc = record l { nucleus = record l.nucleus { stats = inc l.nucleus.stats } }

-- `larc_remove_entry`
unfoldable pub remove_entry : Larc → ℕ → Option Larc
remove_entry l e =
    let unlinked =
      if (l.nucleus.mem.entry e).migrating
      then l
      else (let l' = record l { queues = Queue.take_out l.queues e } in
          if Pool.in_pool l.nucleus.cache_pool e then with_stats l' inc_demotions else l') in
    Nucleus.remove_entry unlinked.nucleus e >>= λ n. some (record unlinked { nucleus = n })

-- `larc_evict`: also the result with the victim's data, where there is a result.
unfoldable pub evict : Larc → ℕ → Option Result → Option (Larc × Option Result)
evict l q result? = Queue.peek l.queues q >>= λ e. remove_entry l e >>= λ l'.
    (let demoted = l.nucleus.mem.entry e in
      some (
        l',
        elim result? [
          | none ↦ none
          | some result ↦
              some (record result { old_oblock = demoted.oblock; dirty_eviction = demoted.dirty })
        ],
      ))

-- The first step of `larc_transaction_commit`: the eviction from the cache.
unfoldable pub make_room : Larc → Bool → Result → Option (Larc × Result)
make_room l c_evict result =
    let fresh = record result { op = Operation.new } in
    if c_evict
    then (evict l q_list (some fresh) >>= λ r.
        r.1 >>= λ noted. some (r.0, record noted { op = Operation.replace }))
    else some (l, fresh)

-- The second step: the entry of the ghost queue goes.
unfoldable pub leave_ghost : Larc → Bool → ℕ → Option Larc
leave_ghost l g_hit oblock =
    if g_hit
    then (let (e?, n) = Nucleus.lookup l.nucleus oblock in
        e? >>= λ e. remove_entry (record l { nucleus = n }) e)
    else some l

-- The third step where the block is in the cache.
unfoldable pub renew : Larc → ℕ → Result → Option (Larc × Result)
renew l oblock result =
    let (e?, n) = Nucleus.lookup l.nucleus oblock in
    e? >>= λ e. Pool.infer_cblock n.cache_pool e >>= λ c. some (
      with_stats
          (record l {
            nucleus = n;
            queues =
                if (n.mem.entry e).migrating
                then l.queues
                else Queue.push (Queue.take_out l.queues e) q_list e;
          })
          inc_hits,
      record result { cblock = c; op = Operation.hit },
    )

-- The third step where the block comes into the cache: its entry is on the move.
unfoldable pub stock : Larc → ℕ → Result → Option (Larc × Result)
stock l oblock result = Nucleus.insert_in_cache l.nucleus oblock (some result) >>= λ r.
    (let (e, n, result?) = r in
      Pool.migrating_entry n.cache_pool n.mem e >>= λ c. result? >>= λ result'. some (
        with_stats
            (record l {
              nucleus = record n { cache_pool = c.0; mem = c.1 };
              queues = if (c.1.entry e).migrating then l.queues else Queue.push l.queues q_list e;
            })
            inc_misses,
        result',
      ))

-- The third step where the block comes into the ghost queue.
unfoldable pub shelve : Larc → ℕ → Result → Option (Larc × Result)
shelve l oblock result = Nucleus.insert_in_meta l.nucleus oblock >>= λ r.
    (let (e, n) = r in
      some (
        with_stats (record l { nucleus = n; queues = Queue.push l.queues g_list e }) inc_filters,
        record result { op = Operation.filter },
      ))

unfoldable pub is_q : Dest → Bool
is_q Dest.larc_q = true
is_q Dest.larc_g = false
is_q Dest.larc_null = false

unfoldable pub place : Larc → Transaction → Result → Option (Larc × Result)
place l lt result =
    if is_q lt.dest
    then (if lt.c_hit then renew l lt.oblock result else stock l lt.oblock result)
    else shelve l lt.oblock result

-- The last step: the eviction from the ghost queue.
unfoldable pub trim : Larc → Bool → Option Larc
trim l g_evict = if g_evict then (evict l g_list none >>= λ r. some r.0) else some l

-- `larc_transaction_commit`
unfoldable pub transaction_commit : Larc → Transaction → Result → Option (Larc × Result)
transaction_commit l lt result =
    make_room (record l { g_size = lt.g_size }) lt.c_evict result >>= λ r.
    leave_ghost r.0 lt.g_hit lt.oblock >>= λ l'.
    place l' lt r.1 >>= λ p. trim p.0 lt.g_evict >>= λ l''. some (l'', p.1)

-- `larc_map_api`
unfoldable pub map : Larc → ℕ → Bool → Result → Option (Larc × Result)
map l oblock write result =
    let (e?, n) = Nucleus.lookup l.nucleus oblock in
    let l' = record l { nucleus = n } in
    transaction_set l' (transaction_init l' oblock) >>= λ t.
    (if transaction_is_legal t.0 t.1
      then (transaction_commit t.0 t.1 result >>= λ r.
          some (
            record r.0 { nucleus = note_write (with_stats r.0 inc_ios).nucleus oblock write },
            r.1,
          ))
      else some (t.0, record result { op = Operation.fail }))
