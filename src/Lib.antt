-- ===== src/Lib.antt =====
-- FOMO: cache policies that decide which accesses may enter a cache.
--
-- The repository holds cache policies in C that share one interface, `struct cache_nucleus`
-- (src/include/cache_nucleus_struct.h, cache_nucleus_api.h). FOMO (src/fomo) and m* (src/mstar)
-- wrap another policy: they see each access, keep a history of the blocks that were missed, and
-- decide whether the access goes on to the wrapped policy or is filtered. Both stand on the
-- entry pools, the hash table and the queues of src/include/tools.
--
-- Which file models what:
--   Base          words of 32 and 64 bits with their wrap-around, Boolean tests, lists.
--   Queue         src/include/tools/queue.h: numbered queues, with the length field and the
--                 parent field of each head. Queue/Order: when these agree.
--   Entry         src/include/entry.h and policy_stats.h: memory as a map from addresses to entries.
--   Pool          src/include/tools/epool.h: the free list, the migrating list, block numbers.
--   Table         src/include/tools/hashtable.h: chains by bucket. `hash_64` of kernel/hash.h is
--                 an argument of the model.
--   Nucleus       src/include/cache_nucleus_internal.h: allocation and removal across a pool, the
--                 table and the memory, and the default handlers. Nucleus/Policy: the interface,
--                 as a record of operations over a state of its own.
--   Ghost         the miss history: the nucleus with a meta pool and one queue, as fomo_policy.c
--                 and mstar_policy.c use it. Ghost/Valid says when pool, table, memory and queue
--                 agree, and
--                 which list of blocks they show; Find, Drop, Admit, Rename and Steps take each operation
--                 to an operation on that list.
--   Fomo          src/fomo/fomo_policy.c. Decide: fomo_transaction_init, _set and _is_legal.
--                 Commit: fomo_transaction_commit and fomo_map. Api: the other handlers. Create:
--                 fomo_init. History: the list specification of the miss history. Refine: one
--                 access against it. Periods: the counts and the switch between the states. Runs:
--                 traces over a wrapped policy that keeps its promises. Start: a new FOMO.
--                 Handlers and Remap: removal, remapping and the choice of a victim.
--   Mstar         src/mstar. Window: mstar_phase.c. Transition and Logic: mstar_transitions.c and
--                 mstar_logic.c. Ring, Push and Rate: windows; Params: thresholds; States: the
--                 state machine. Policy: mstar_policy.c, with the ghost cache on the same
--                 Ghost as FOMO; Policy/Size, Refine and Runs: the bounds of its size, one access
--                 against the list specification, and traces.
--   Larc          src/algs/larc/larc_policy.c, a policy that FOMO and m* can wrap, on a nucleus and
--                 two queues. Access: larc_map_api in its steps. Api: the other handlers. Valid:
--                 when pools, table, queues and the size of the ghost queue agree. Remove, Insert,
--                 Renew, Commit and Steps: the parts of an access; Map and Victim: a whole access and
--                 the choice of a victim; Handlers: a removal and the end of a migration;
--                 Start: a new LARC. Whole: FOMO over LARC
--                 and m* over LARC. Nucleus/Valid and its siblings hold what LARC needs of the
--                 pools and the table.
--   Lru           src/algs/lru/lru_policy.c in the same way. Api: the handlers beside the access; Parts:
--                 an eviction, an insertion and a hit; Map: an access; Handlers: a removal and
--                 the end of a migration; Whole: the choice of a victim, a new LRU, and FOMO
--                 and m* over LRU.
--   Heap          src/include/tools/heap.h: an array of heads with their keys and indices. Up and
--                 Down: the two loops, with their rounds counted; Steps and Delete: the operations.
--   Lfu           src/algs/lfu/lfu_policy.c: lfu_map_api in its steps, over a nucleus and a heap. Api:
--                 the other handlers. Order: lfu_compare. The transaction of lfu_next_victim_api is
--                 not initialised: what its memory held is an argument.
--   Tests         each result below that has hypotheses at a concrete input, and test runs.
--
-- Conventions. A pointer to an entry is its address, in units of one entry. A step that the code
-- could not survive (a failed assertion, a null pointer, a division by zero, an index outside of
-- an array) is `none`, with three exceptions: an access outside of the values of a window changes
-- nothing or reads 0 (a valid window makes none: it has as many places as its size, and its two
-- indices are below that); the array of a heap has no end (a heap in order stays within its size,
-- and that within its capacity); and the removal from its chain of an entry that is in none does
-- nothing. Memory allocation succeeds. A wrapped policy is any `Policy`; what FOMO asks
-- of it is `Keeps` in Fomo/Runs, and what m* asks is `Serves` in Mstar/Policy/Refine. The loop of
-- next_power has 33 rounds, one for each shift of a
-- word of 32 bits and one more; Table/Size shows that they are enough. The loop of
-- heap_decrease_key has as many rounds as the index of the head and one more, and heapify as many
-- calls as the heap has heads and one more; Heap/Up and Heap/Down show that they are enough. The
-- loop of heap_build has as many rounds; nothing is proved of it. All other loops are over a list
-- or a count.
--
-- Not modelled: the functions that only free memory, the other policies (src/algs: ARC, LIRS, mARC), the
-- simulator, the trace readers, the wrappers that print, the kernel glue, and locking: a policy is
-- used by one thread at a time, as CACHE_NUCLEUS_SINGLE_THREAD says.
pub mod Base
pub mod Entry
pub mod Fomo
pub mod Ghost
pub mod Heap
pub mod Larc
pub mod Lfu
pub mod Lru
pub mod Mstar
pub mod Nucleus
pub mod Pool
pub mod Queue
pub mod Table
pub mod Tests
