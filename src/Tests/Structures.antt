-- ===== src/Tests/Structures.antt =====
-- A pool of three entries, a queue of two heads and a table.
use fomo.Base.{
  ℕ, ◌≡◌, refl, [], ◌∷◌, true, false, none, some, mem, remove, arith, length, Distinct, ◌^◌, ◌*◌,
  ◌/◌, ◌≤◌, ◌<◌, ◌==◌, ◌||◌, if◌then◌else◌, max,
}
use fomo.Entry.{Memory}
use fomo.Pool
use fomo.Pool.{Pool}
use fomo.Pool.Init.{init-create, init_again}
use fomo.Pool.Blocks.{at-infer_cblock, infer_cblock-at}
use fomo.Queue
use fomo.Queue.{Queues}
use fomo.Queue.Order
use fomo.Queue.Order.{take_out-IsValid, items-take_out}
use fomo.Table
use fomo.Table.{Table}
use fomo.Table.Size.{init-size}
use fomo.Tests.Wrapped.{parity, some_memory}

-- A pool whose cache blocks count from 2 on.
abbrev three : Pool
three = record {
  entries_begin = 10;
  free = [];
  migrating = [];
  nr_allocated = 3;
  nr_migrating = 0;
  nr_entries = 3;
  starting_index = 2;
}

init-create_example :
    (p : Pool) × (m' : Memory) × (Pool.init (Pool.create 10 3) 0 some_memory ≡ some (p, m'))
    × ((e : ℕ) → mem e p.free ≡ Pool.in_pool p e)
    × Distinct p.free
    × (length p.free ≡ 3)
    × (p.nr_entries ≡ 3)
    × (p.entries_begin ≡ 10)
    × (p.nr_allocated ≡ 0)
    × (p.nr_migrating ≡ 0)
    × (p.migrating ≡ [])
    × ((e : ℕ) → Pool.in_pool p e ≡ true → (m'.entry e).allocated ≡ false)
    × ((e : ℕ) → Pool.in_pool p e ≡ true → (m'.entry e).migrating ≡ false)
init-create_example = init-create 10 3 some_memory (omega arith)

init_again_example : Pool.init three 0 some_memory ≡ none
init_again_example =
    init_again three 0 some_memory (omega arith) (omega arith) (omega arith) (omega arith)

third_block : Pool.infer_cblock three 12 ≡ some 4
unfolding Pool.infer_cblock Pool.in_pool
third_block = refl

at-infer_cblock_example : Pool.at three 4 ≡ some 12
at-infer_cblock_example = at-infer_cblock three 12 (omega arith) third_block

third_entry : Pool.at three 4 ≡ some 12
unfolding Pool.at
third_entry = refl

infer_cblock-at_example : Pool.infer_cblock three 12 ≡ some 4
infer_cblock-at_example =
    infer_cblock-at three 4 (omega arith) (omega arith) (omega arith) third_entry

init-size_example :
    (t : Table) × (Table.init parity 100 ≡ some t)
    × (t.nr_buckets ≡ 2 ^ t.hash_bits)
    × (max (100 / 2) 16 ≤ t.nr_buckets)
    × (t.nr_buckets < 2 * max (100 / 2) 16)
    × ((b : ℕ) → t.table b ≡ [])
init-size_example = init-size parity 100 (omega arith)

-- Queue 0 with the heads 5 and 6.
abbrev of_two : Queues
of_two = record {
  items = λ q. if q == 0 then 5 ∷ 6 ∷ [] else [];
  len = λ q. if q == 0 then 2 else 0;
  parent = λ h. if (h == 5) || (h == 6) then some 0 else none;
}

of_two-IsValid : Order.IsValid of_two 0
unfolding mem Queue.in_queue
of_two-IsValid = record {
  len_eq = refl;
  distinct = (refl, (refl, tt));
  small = omega arith;
  parent_in = λ h. ground arith;
}

five_queued : mem 5 (of_two.items 0) ≡ true
unfolding mem
five_queued = refl

items-take_out_example : (Queue.take_out of_two 5).items 0 ≡ remove 5 (5 ∷ 6 ∷ [])
items-take_out_example = items-take_out of_two 0 5 of_two-IsValid five_queued
