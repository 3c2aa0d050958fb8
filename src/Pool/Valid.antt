-- ===== src/Pool/Valid.antt =====
-- src/include/tools/epool.h: the free list, the migrating list and the counters of a pool agree
-- with the flags of its entries, and what the allocation of the first free entry, a release and a
-- migration change of that.
use fomo.Base.{
  ℕ, ◌+◌, ◌-◌, ◌<◌, ◌≡◌, ap, List, ◌∷◌, true, false, not, ◌&&◌, ◌==◌, mem, remove, length, Distinct,
  if◌then◌else◌, mem-cons, mem-remove, remove_absent, remove-Distinct, length-remove,
  mem_length_pos, length-subset, ◌≤◌, ==_refl, u32_mod, arith,
}
use fomo.Entry.{Entry}
use fomo.Pool.{Pool, in_pool}

-- `used` lists the entries that are allocated.
pub record IsValid (p : Pool) (f : ℕ → Entry) : Type 0 where
  pub used : List ℕ
  pub free_iff : (e : ℕ) → mem e p.free ≡ (in_pool p e && not (f e).allocated)
  pub used_iff : (e : ℕ) → mem e used ≡ (in_pool p e && (f e).allocated)
  pub moving_iff : (e : ℕ) → mem e p.migrating ≡ (in_pool p e && (f e).migrating)
  pub moving_used : (e : ℕ) → in_pool p e ≡ true → (f e).migrating ≡ true → (f e).allocated ≡ true
  pub free_distinct : Distinct p.free
  pub used_distinct : Distinct used
  pub moving_distinct : Distinct p.migrating
  pub count : length p.free + length used ≡ p.nr_entries
  pub allocated : p.nr_allocated ≡ length used
  pub moves : p.nr_migrating ≡ length p.migrating
  pub small : p.nr_entries < u32_mod

-- A change elsewhere leaves the pool valid.
pub frame-IsValid :
    (p : Pool) (f f' : ℕ → Entry)
    → IsValid p f
    → ((e : ℕ) → in_pool p e ≡ true → (f' e).allocated ≡ (f e).allocated)
    → ((e : ℕ) → in_pool p e ≡ true → (f' e).migrating ≡ (f e).migrating)
    → IsValid p f'
frame-IsValid p f f' v a m = record {
  used = v.used;
  free_iff = λ e. ground (arith, v.free_iff e, a e);
  used_iff = λ e. ground (arith, v.used_iff e, a e);
  moving_iff = λ e. ground (arith, v.moving_iff e, m e);
  moving_used = λ e i. ground (arith, v.moving_used e i, m e i, a e i);
  free_distinct = v.free_distinct;
  used_distinct = v.used_distinct;
  moving_distinct = v.moving_distinct;
  count = v.count;
  allocated = v.allocated;
  moves = v.moves;
  small = v.small;
}

-- The pool after its first free entry has been taken.
abbrev pub taken : Pool → ℕ → List ℕ → Pool
taken p e rest = record p {
  free = rest;
  migrating = remove e (remove e p.migrating);
  nr_allocated = p.nr_allocated + 1;
}

module _ (p : Pool) (f f' : ℕ → Entry) (e : ℕ) (v : IsValid p f) where
  pub take-IsValid :
      (rest : List ℕ)
      → p.free ≡ e ∷ rest
      → ((a : ℕ) → (f' a).allocated ≡ (if a == e then true else (f a).allocated))
      → ((a : ℕ) → (f' a).migrating ≡ (f a).migrating)
      → IsValid (taken p e rest) f'
  unfolding in_pool
  take-IsValid rest first alloc moves =
      let d : (mem e rest ≡ false) × Distinct rest = rw first at v.free_distinct in
      let inside : in_pool p e ≡ true =
        ground (arith, v.free_iff e, first, mem-cons e e rest, ==_refl e) in
      let unused : mem e v.used ≡ false =
        ground (arith, v.used_iff e, v.free_iff e, first, mem-cons e e rest, ==_refl e) in
      let still : mem e p.migrating ≡ false =
        ground (arith, v.moving_iff e, v.moving_used e, unused, v.used_iff e) in
      record {
        used = e ∷ v.used;
        free_iff = λ a. ground (arith, v.free_iff a, first, mem-cons a e rest, d.0, alloc a);
        used_iff = λ a. ground (arith, v.used_iff a, mem-cons a e v.used, alloc a, inside);
        moving_iff = λ a. ground (
          arith,
          v.moving_iff a,
          v.moving_iff e,
          v.moving_used e,
          unused,
          v.used_iff e,
          mem-remove a e (remove e p.migrating),
          mem-remove a e p.migrating,
          moves a,
        );
        moving_used = λ a i. ground (arith, v.moving_used a i, moves a, alloc a);
        free_distinct = d.1;
        used_distinct = (unused, v.used_distinct);
        moving_distinct =
            remove-Distinct e (remove e p.migrating)
              (remove-Distinct e p.migrating v.moving_distinct);
        count = ground (arith, v.count, ap length first);
        allocated = ground (arith, v.allocated);
        moves = ground (arith, v.moves, remove_absent e p.migrating, still);
        small = v.small;
      }

  -- There are as many moving entries as a word counts, and some are allocated if one is.
  pub moving-le : length p.migrating ≤ length v.used
  moving-le =
      length-subset p.migrating v.used v.moving_distinct v.used_distinct
        (λ a m. ground (arith, v.moving_iff a, v.moving_used a, v.used_iff a))

  -- There are fewer if an allocated entry does not move.
  pub moving-lt :
      in_pool p e ≡ true
      → (f e).allocated ≡ true
      → (f e).migrating ≡ false
      → length p.migrating < length v.used
  moving-lt i on still =
      length-subset (e ∷ p.migrating) v.used (ground (arith, v.moving_iff e), v.moving_distinct)
        v.used_distinct
        (λ a m. ground (
          arith,
          mem-cons a e p.migrating,
          v.moving_iff a,
          v.moving_used a,
          v.used_iff a,
          v.used_iff e,
        ))

  pub allocated_pos : in_pool p e ≡ true → (f e).allocated ≡ true → 0 < p.nr_allocated
  allocated_pos i a = ground (arith, v.allocated, mem_length_pos e v.used, v.used_iff e)

  -- The entry goes back to the free list, from the migrating list if it is there.
  pub release-IsValid :
      in_pool p e ≡ true
      → (f e).allocated ≡ true
      → ((a : ℕ) → (f' a).allocated ≡ (if a == e then false else (f a).allocated))
      → ((a : ℕ) → (f' a).migrating ≡ (if a == e then false else (f a).migrating))
      → IsValid
          (record p {
            free = e ∷ p.free;
            migrating = remove e p.migrating;
            nr_allocated = p.nr_allocated - 1;
            nr_migrating = if (f e).migrating then p.nr_migrating - 1 else p.nr_migrating;
          })
          f'
  unfolding in_pool
  release-IsValid inside on alloc moves = record {
    used = remove e v.used;
    free_iff = λ a. ground (arith, v.free_iff a, mem-cons a e p.free, alloc a, inside);
    used_iff = λ a. ground (arith, v.used_iff a, mem-remove a e v.used, alloc a);
    moving_iff = λ a. ground (arith, v.moving_iff a, mem-remove a e p.migrating, moves a);
    moving_used = λ a i. ground (arith, v.moving_used a i, moves a, alloc a);
    free_distinct = (ground (arith, v.free_iff e), v.free_distinct);
    used_distinct = remove-Distinct e v.used v.used_distinct;
    moving_distinct = remove-Distinct e p.migrating v.moving_distinct;
    count = ground (arith, v.count, v.used_iff e, length-remove e v.used v.used_distinct);
    allocated = ground (arith, v.allocated, v.used_iff e, length-remove e v.used v.used_distinct);
    moves = ground (
      arith,
      v.moves,
      v.moving_iff e,
      length-remove e p.migrating v.moving_distinct,
      remove_absent e p.migrating,
    );
    small = v.small;
  }

  -- An allocated entry begins to move.
  pub move-IsValid :
      in_pool p e ≡ true
      → (f e).allocated ≡ true
      → (f e).migrating ≡ false
      → ((a : ℕ) → (f' a).allocated ≡ (f a).allocated)
      → ((a : ℕ) → (f' a).migrating ≡ (if a == e then true else (f a).migrating))
      → IsValid (record p { migrating = e ∷ p.migrating; nr_migrating = p.nr_migrating + 1 }) f'
  unfolding in_pool
  move-IsValid inside on still alloc moves = record {
    used = v.used;
    free_iff = λ a. ground (arith, v.free_iff a, alloc a);
    used_iff = λ a. ground (arith, v.used_iff a, alloc a);
    moving_iff = λ a. ground (arith, v.moving_iff a, mem-cons a e p.migrating, moves a, inside);
    moving_used = λ a i. ground (arith, v.moving_used a i, moves a, alloc a, on);
    free_distinct = v.free_distinct;
    used_distinct = v.used_distinct;
    moving_distinct = (ground (arith, v.moving_iff e), v.moving_distinct);
    count = v.count;
    allocated = v.allocated;
    moves = ground (arith, v.moves);
    small = v.small;
  }

  -- A moving entry has arrived.
  pub settle-IsValid :
      in_pool p e ≡ true
      → (f e).migrating ≡ true
      → ((a : ℕ) → (f' a).allocated ≡ (f a).allocated)
      → ((a : ℕ) → (f' a).migrating ≡ (if a == e then false else (f a).migrating))
      → IsValid
          (record p {
            free = remove e p.free;
            migrating = remove e p.migrating;
            nr_migrating = p.nr_migrating - 1;
          })
          f'
  unfolding in_pool
  settle-IsValid inside moving alloc moves =
      let listed : mem e p.free ≡ false = ground (arith, v.free_iff e, v.moving_used e) in
      record {
        used = v.used;
        free_iff =
            λ a. ground (arith, v.free_iff a, mem-remove a e p.free, listed, alloc a, v.free_iff e);
        used_iff = λ a. ground (arith, v.used_iff a, alloc a);
        moving_iff = λ a. ground (arith, v.moving_iff a, mem-remove a e p.migrating, moves a);
        moving_used = λ a i. ground (arith, v.moving_used a i, moves a, alloc a);
        free_distinct = remove-Distinct e p.free v.free_distinct;
        used_distinct = v.used_distinct;
        moving_distinct = remove-Distinct e p.migrating v.moving_distinct;
        count = ground (arith, v.count, remove_absent e p.free listed);
        allocated = v.allocated;
        moves =
            ground (arith, v.moves, v.moving_iff e, length-remove e p.migrating v.moving_distinct);
        small = v.small;
      }
