-- ===== src/Tests/Lfus.antt =====
-- LFU on a small cache: some accesses, and what its theorems say.
use fomo.Base.{
  ℕ, ◌≡◌, refl, [], ◌∷◌, true, false, Bool, Option, none, some, ltb, ◌==◌, ◌&&◌, ◌||◌, ◌>>=◌,
  if◌then◌else◌, arith,
}
use fomo.Entry.Stats.{zeros}
use fomo.Pool.{create, in_pool}
use fomo.Queue.{no_queues}
use fomo.Heap
use fomo.Nucleus.{Operation, Result, lookup, cache_is_full}
use fomo.Lfu.{Lfu, compare_less, map}
use fomo.Lfu.Api
use fomo.Lfu.Order.{lfu_compare-order}
use fomo.Fomo.Runs.{no_result}
use fomo.Tests.Wrapped.{parity, some_memory}

-- An access, and an access to a new block with the end of its migration.
access : Lfu → ℕ → Option (Lfu × Result)
access l o = map l o false no_result

bring : Lfu → ℕ → Option Lfu
bring l o = access l o >>= λ r. Api.migrated r.0 o

-- A cache of two blocks with 5 and 6 in it, each at its own time.
two_in : Option Lfu
two_in = Api.init parity some_memory (λ h. 0) (λ h. 0) 100 2 >>= λ l.
    bring l 5 >>= λ l. bring (record l { nucleus = record l.nucleus { time = 1 } }) 6

-- What an access evicts.
evicted : Option (Lfu × Result) → Option (Operation × ℕ)
evicted r? = r? >>= λ r. some (r.1.op, r.1.old_oblock)

-- A third block makes the older of two go that were used as often, and the one that was used less
-- often after a hit.
older_goes : evicted (two_in >>= λ l. access l 7) ≡ some (Operation.replace, 5)
unfolding two_in bring access evicted Api.init Api.migrated map compare_less fomo.Lfu.negative
    fomo.Lfu.transaction_init fomo.Lfu.transaction_set fomo.Lfu.transaction_is_legal
    fomo.Lfu.remove_entry fomo.Lfu.stamp fomo.Lfu.make_room fomo.Lfu.renew fomo.Lfu.stock
    fomo.Lfu.transaction_commit Heap.init Heap.full Heap.parent Heap.left Heap.right Heap.swap
    Heap.min Heap.move_up Heap.decrease_key Heap.insert Heap.least Heap.heapify Heap.delete lookup
    fomo.Nucleus.policy_init fomo.Nucleus.note_write fomo.Nucleus.in_cache
    fomo.Nucleus.alloc_pool_entry cache_is_full fomo.Nucleus.insert_in_cache
    fomo.Nucleus.remove_entry fomo.Table.lookup fomo.Table.chain_find fomo.Table.ffs_from
    fomo.Table.init fomo.Table.insert fomo.Table.next_power fomo.Table.power_from
    fomo.Table.take_out create in_pool fomo.Pool.init fomo.Pool.init_from fomo.Pool.at
    fomo.Pool.alloc_entry fomo.Pool.alloc_this_entry fomo.Pool.empty fomo.Pool.free_entry
    fomo.Pool.infer_cblock fomo.Pool.migrating_entry fomo.Pool.migrated_entry fomo.Base.remove
    fomo.Entry.name_entry fomo.Queue.init fomo.Queue.take_out fomo.Entry.Stats.inc_ios
    fomo.Entry.Stats.inc_misses fomo.Entry.Stats.inc_hits fomo.Entry.Stats.inc_demotions
    fomo.Entry.Stats.inc_promotions
older_goes = refl

-- The least entry of the heap, and whether the cache is full.
least_of : Lfu → Option ℕ × Bool
least_of l = (Heap.min l.heap, cache_is_full l.nucleus)

-- A removal, which makes room, and an insertion at the block that it leaves.
room_again :
    (two_in >>= λ l. Api.remove l 5 false >>= λ l. some (least_of l)) ≡ some (some 100, false)
unfolding two_in bring access least_of Api.remove Api.init Api.migrated map compare_less
    fomo.Lfu.negative fomo.Lfu.transaction_init fomo.Lfu.transaction_set
    fomo.Lfu.transaction_is_legal fomo.Lfu.remove_entry fomo.Lfu.stamp fomo.Lfu.make_room
    fomo.Lfu.renew fomo.Lfu.stock fomo.Lfu.transaction_commit Heap.init Heap.full Heap.parent
    Heap.left Heap.right Heap.swap Heap.min Heap.move_up Heap.decrease_key Heap.insert Heap.least
    Heap.heapify Heap.delete lookup fomo.Nucleus.policy_init fomo.Nucleus.note_write
    fomo.Nucleus.in_cache fomo.Nucleus.alloc_pool_entry cache_is_full fomo.Nucleus.insert_in_cache
    fomo.Nucleus.remove_entry fomo.Table.lookup fomo.Table.chain_find fomo.Table.ffs_from
    fomo.Table.init fomo.Table.insert fomo.Table.next_power fomo.Table.power_from
    fomo.Table.take_out create in_pool fomo.Pool.init fomo.Pool.init_from fomo.Pool.at
    fomo.Pool.alloc_entry fomo.Pool.alloc_this_entry fomo.Pool.empty fomo.Pool.free_entry
    fomo.Pool.infer_cblock fomo.Pool.migrating_entry fomo.Pool.migrated_entry fomo.Base.remove
    fomo.Entry.name_entry fomo.Queue.init fomo.Queue.take_out fomo.Entry.Stats.inc_ios
    fomo.Entry.Stats.inc_misses fomo.Entry.Stats.inc_hits fomo.Entry.Stats.inc_demotions
    fomo.Entry.Stats.inc_promotions
room_again = refl

put_back :
    (two_in >>= λ l. Api.remove l 5 false >>= λ l. Api.insert l 8 1 >>= λ l. some (least_of l))
    ≡ some (some 100, true)
unfolding two_in bring access least_of Api.remove Api.insert fomo.Nucleus.insert_in_cache_at
    fomo.Nucleus.alloc_pool_entry_at fomo.Pool.alloc_particular_entry Api.init Api.migrated map
    compare_less fomo.Lfu.negative fomo.Lfu.transaction_init fomo.Lfu.transaction_set
    fomo.Lfu.transaction_is_legal fomo.Lfu.remove_entry fomo.Lfu.stamp fomo.Lfu.make_room
    fomo.Lfu.renew fomo.Lfu.stock fomo.Lfu.transaction_commit Heap.init Heap.full Heap.parent
    Heap.left Heap.right Heap.swap Heap.min Heap.move_up Heap.decrease_key Heap.insert Heap.least
    Heap.heapify Heap.delete lookup fomo.Nucleus.policy_init fomo.Nucleus.note_write
    fomo.Nucleus.in_cache fomo.Nucleus.alloc_pool_entry cache_is_full fomo.Nucleus.insert_in_cache
    fomo.Nucleus.remove_entry fomo.Table.lookup fomo.Table.chain_find fomo.Table.ffs_from
    fomo.Table.init fomo.Table.insert fomo.Table.next_power fomo.Table.power_from
    fomo.Table.take_out create in_pool fomo.Pool.init fomo.Pool.init_from fomo.Pool.at
    fomo.Pool.alloc_entry fomo.Pool.alloc_this_entry fomo.Pool.empty fomo.Pool.free_entry
    fomo.Pool.infer_cblock fomo.Pool.migrating_entry fomo.Pool.migrated_entry fomo.Base.remove
    fomo.Entry.name_entry fomo.Queue.init fomo.Queue.take_out fomo.Entry.Stats.inc_ios
    fomo.Entry.Stats.inc_misses fomo.Entry.Stats.inc_hits fomo.Entry.Stats.inc_demotions
    fomo.Entry.Stats.inc_promotions
put_back = refl

less_used_goes :
    evicted (two_in >>= λ l. access l 5 >>= λ r. access r.0 7) ≡ some (Operation.replace, 6)
unfolding two_in bring access evicted Api.init Api.migrated map compare_less fomo.Lfu.negative
    fomo.Lfu.transaction_init fomo.Lfu.transaction_set fomo.Lfu.transaction_is_legal
    fomo.Lfu.remove_entry fomo.Lfu.stamp fomo.Lfu.make_room fomo.Lfu.renew fomo.Lfu.stock
    fomo.Lfu.transaction_commit Heap.init Heap.full Heap.parent Heap.left Heap.right Heap.swap
    Heap.min Heap.move_up Heap.decrease_key Heap.insert Heap.least Heap.heapify Heap.delete lookup
    fomo.Nucleus.policy_init fomo.Nucleus.note_write fomo.Nucleus.in_cache
    fomo.Nucleus.alloc_pool_entry cache_is_full fomo.Nucleus.insert_in_cache
    fomo.Nucleus.remove_entry fomo.Table.lookup fomo.Table.chain_find fomo.Table.ffs_from
    fomo.Table.init fomo.Table.insert fomo.Table.next_power fomo.Table.power_from
    fomo.Table.take_out create in_pool fomo.Pool.init fomo.Pool.init_from fomo.Pool.at
    fomo.Pool.alloc_entry fomo.Pool.alloc_this_entry fomo.Pool.empty fomo.Pool.free_entry
    fomo.Pool.infer_cblock fomo.Pool.migrating_entry fomo.Pool.migrated_entry fomo.Base.remove
    fomo.Entry.name_entry fomo.Queue.init fomo.Queue.take_out fomo.Entry.Stats.inc_ios
    fomo.Entry.Stats.inc_misses fomo.Entry.Stats.inc_hits fomo.Entry.Stats.inc_demotions
    fomo.Entry.Stats.inc_promotions
less_used_goes = refl

-- Frequencies that lie 2 ^ 31 apart are put in the wrong order.
far_apart : compare_less some_memory (λ h. if h == 1 then 2147483649 else 0) 1 2 ≡ true
unfolding compare_less fomo.Lfu.negative
far_apart = refl

lfu_compare-order_example :
    compare_less some_memory (λ h. h) 1 2
    ≡ (ltb 1 2 || (1 == 2 && ltb (some_memory.entry 1).time (some_memory.entry 2).time))
lfu_compare-order_example =
    lfu_compare-order some_memory (λ h. h) 1 2 (omega arith) (omega arith) (omega arith)
      (omega arith)

-- The first block in the cache.
some_lfu : Lfu
some_lfu = record {
  nucleus = record {
    meta_size = 0;
    cache_size = 0;
    meta_pool = create 0 0;
    cache_pool = create 0 0;
    stats = zeros;
    ht = record { nr_buckets = 0; hash_bits = 0; table = λ _. []; hash_64 = parity };
    time = 0;
    mem = some_memory;
  };
  heap = Heap.init (λ h. 0) (λ h. 0) 0;
}

made_or : Option Lfu → Lfu → Lfu
made_or none d = d
made_or (some l) d = l

one_in : Lfu
one_in = made_or (Api.init parity some_memory (λ h. 0) (λ h. 0) 100 2 >>= λ l. bring l 5) some_lfu

-- What the choice of a victim answers.
answer : Option (Operation × Option ℕ × Lfu) → Option (Operation × Option ℕ)
answer none = none
answer (some (op, victim, l)) = some (op, victim)

-- The cache has room for another block, but a victim is named if the memory of the transaction
-- held true.
clean_new : answer (Api.next_victim false false one_in 6) ≡ some (Operation.new, none)
unfolding one_in made_or some_lfu answer Api.next_victim bring access Api.init Api.migrated map
    compare_less fomo.Lfu.negative fomo.Lfu.transaction_init fomo.Lfu.transaction_set
    fomo.Lfu.transaction_is_legal fomo.Lfu.remove_entry fomo.Lfu.stamp fomo.Lfu.make_room
    fomo.Lfu.renew fomo.Lfu.stock fomo.Lfu.transaction_commit Heap.init Heap.full Heap.parent
    Heap.left Heap.right Heap.swap Heap.min Heap.move_up Heap.decrease_key Heap.insert Heap.least
    Heap.heapify Heap.delete lookup fomo.Nucleus.policy_init fomo.Nucleus.note_write
    fomo.Nucleus.in_cache fomo.Nucleus.alloc_pool_entry cache_is_full fomo.Nucleus.insert_in_cache
    fomo.Nucleus.remove_entry fomo.Table.lookup fomo.Table.chain_find fomo.Table.ffs_from
    fomo.Table.init fomo.Table.insert fomo.Table.next_power fomo.Table.power_from
    fomo.Table.take_out create in_pool fomo.Pool.init fomo.Pool.init_from fomo.Pool.at
    fomo.Pool.alloc_entry fomo.Pool.alloc_this_entry fomo.Pool.empty fomo.Pool.free_entry
    fomo.Pool.infer_cblock fomo.Pool.migrating_entry fomo.Pool.migrated_entry fomo.Base.remove
    fomo.Entry.name_entry fomo.Queue.init fomo.Queue.take_out fomo.Entry.Stats.inc_ios
    fomo.Entry.Stats.inc_misses fomo.Entry.Stats.inc_hits fomo.Entry.Stats.inc_demotions
    fomo.Entry.Stats.inc_promotions
clean_new = refl

stale_replace : answer (Api.next_victim false true one_in 6) ≡ some (Operation.replace, some 101)
unfolding one_in made_or some_lfu answer Api.next_victim bring access Api.init Api.migrated map
    compare_less fomo.Lfu.negative fomo.Lfu.transaction_init fomo.Lfu.transaction_set
    fomo.Lfu.transaction_is_legal fomo.Lfu.remove_entry fomo.Lfu.stamp fomo.Lfu.make_room
    fomo.Lfu.renew fomo.Lfu.stock fomo.Lfu.transaction_commit Heap.init Heap.full Heap.parent
    Heap.left Heap.right Heap.swap Heap.min Heap.move_up Heap.decrease_key Heap.insert Heap.least
    Heap.heapify Heap.delete lookup fomo.Nucleus.policy_init fomo.Nucleus.note_write
    fomo.Nucleus.in_cache fomo.Nucleus.alloc_pool_entry cache_is_full fomo.Nucleus.insert_in_cache
    fomo.Nucleus.remove_entry fomo.Table.lookup fomo.Table.chain_find fomo.Table.ffs_from
    fomo.Table.init fomo.Table.insert fomo.Table.next_power fomo.Table.power_from
    fomo.Table.take_out create in_pool fomo.Pool.init fomo.Pool.init_from fomo.Pool.at
    fomo.Pool.alloc_entry fomo.Pool.alloc_this_entry fomo.Pool.empty fomo.Pool.free_entry
    fomo.Pool.infer_cblock fomo.Pool.migrating_entry fomo.Pool.migrated_entry fomo.Base.remove
    fomo.Entry.name_entry fomo.Queue.init fomo.Queue.take_out fomo.Entry.Stats.inc_ios
    fomo.Entry.Stats.inc_misses fomo.Entry.Stats.inc_hits fomo.Entry.Stats.inc_demotions
    fomo.Entry.Stats.inc_promotions
stale_replace = refl
