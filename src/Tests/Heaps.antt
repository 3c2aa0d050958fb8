-- ===== src/Tests/Heaps.antt =====
-- Small heaps: what the theorems say of them, and what `heap_build` does to one.
use fomo.Base.{
  ℕ, ◌+◌, ◌-◌, ◌≡◌, refl, true, false, Option, none, some, not, ◌&&◌, ◌||◌, ◌==◌, arith,
  if◌then◌else◌,
}
use fomo.Heap.{
  Heap, default_less, insert, delete, min_pop, in_heap, build, build_from, heapify, least, right,
  left, parent, swap,
}
use fomo.Heap.Valid.{IsHeap, head}
use fomo.Heap.Steps.{default_less-IsCompare, insert-IsHeap}
use fomo.Heap.Delete.{heap_delete-IsHeap, min_pop-IsHeap}

abbrev empty : Heap
empty = record { heap_arr = λ _. none; capacity = 7; size = 0; key = λ _. 0; index = λ _. 0 }

empty-IsHeap : IsHeap default_less empty
empty-IsHeap = record {
  placed = record {
    filled = λ i inside. absurd (omega arith);
    indexed = λ i inside. absurd (omega arith);
    fits = omega arith;
    word = omega arith;
  };
  ordered = λ i pos inside. absurd (omega arith);
}

insert-IsHeap_example :
    (s' : Heap) × (insert default_less empty 40 7 ≡ some s')
    × IsHeap default_less s'
    × (s'.size ≡ 1)
    × ((a : ℕ) → in_heap s' a ≡ (in_heap empty a || (a == 40)))
    × ((a : ℕ) → s'.key a ≡ (if a == 40 then 7 else 0))
unfolding in_heap
insert-IsHeap_example =
    insert-IsHeap default_less default_less-IsCompare empty 40 7 empty-IsHeap (omega arith) refl

-- Heads 40, 41 and 42 with the keys 7, 9 and 8.
three : Heap
three = record {
  heap_arr = λ i.
      if i == 0 then some 40 else (if i == 1 then some 41 else (if i == 2 then some 42 else none));
  capacity = 7;
  size = 3;
  key = λ a. if a == 40 then 7 else (if a == 41 then 9 else 8);
  index = λ a. if a == 41 then 1 else (if a == 42 then 2 else 0);
}

three-IsHeap : IsHeap default_less three
unfolding three default_less
three-IsHeap = record {
  placed = record {
    filled = λ i inside. ground arith;
    indexed = λ i inside. ground arith;
    fits = omega arith;
    word = omega arith;
  };
  ordered = λ i pos inside. ground arith;
}

heap_delete-IsHeap_example :
    (s' : Heap) × (delete default_less three 40 ≡ some s')
    × IsHeap default_less s'
    × (s'.size ≡ 2)
    × ((a : ℕ) → in_heap s' a ≡ (in_heap three a && not (a == 40)))
    × ((a : ℕ) → s'.key a ≡ three.key a)
unfolding in_heap three
heap_delete-IsHeap_example =
    heap_delete-IsHeap default_less default_less-IsCompare three 40 three-IsHeap refl

min_pop-IsHeap_example :
    (m : ℕ) × (s' : Heap) × (min_pop default_less three ≡ some (some m, s'))
    × (in_heap three m ≡ true)
    × (default_less three.key 41 m ≡ false)
    × IsHeap default_less s'
    × ((b : ℕ) → in_heap s' b ≡ (in_heap three b && not (b == m)))
unfolding in_heap three
min_pop-IsHeap_example =
    min_pop-IsHeap default_less default_less-IsCompare three 41 three-IsHeap refl

-- `heap_build` repairs the places above the last one only: of the keys 1, 5, 2, 3, 4, 6, 7, the
-- head at place 1 stays above the smaller one at place 3.
unordered : Heap
unordered = record {
  heap_arr = λ i. some (50 + i);
  capacity = 7;
  size = 7;
  key = λ a. if a == 51 then 5 else (if a == 52 then 2 else (if a == 50 then 1 else a - 50));
  index = λ a. a - 50;
}

place_of : Option Heap → ℕ → ℕ
place_of none i = 0
place_of (some s) i = s.key (head s i)

build_skips :
    (place_of (build default_less unordered) 1 ≡ 5)
    × (place_of (build default_less unordered) 3 ≡ 3)
unfolding place_of unordered build build_from heapify least right left parent swap default_less
build_skips = (refl, refl)
