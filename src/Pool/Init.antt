-- ===== src/Pool/Init.antt =====
-- src/include/tools/epool.h: `epool_init`, after `epool_create` and on a pool that is in use.
use fomo.Base.{
  ℕ, zero, suc, ◌+◌, ◌≤◌, ◌<◌, ◌≡◌, refl, sym, ap, subst, ◌∙◌, [], ◌∷◌, Bool, true, false, none,
  some, ltb, leb, not, ◌&&◌, ◌||◌, mem, mem-cons, mem-nil, length, Distinct, update, Bool-cases,
  u32_mod, arith,
}
use fomo.Entry.{Memory}
use fomo.Queue
use fomo.Pool.Valid
use fomo.Pool.{Pool, at, reset, init_from, init, in_pool, create}

-- The address lies among the entries from index `i` on, `n` of them.
abbrev pub among : Pool → ℕ → ℕ → ℕ → Bool
among p i n e = leb (p.entries_begin + i) e && ltb e (p.entries_begin + i + n)

-- What the rounds from index `i` on leave, `n` of them.
record Freed (i n : ℕ) (p : Pool) (m : Memory) (p' : Pool) (m' : Memory) : Type 0 where
  same_begin : p'.entries_begin ≡ p.entries_begin
  same_size : p'.nr_entries ≡ p.nr_entries
  no_moving : p'.migrating ≡ p.migrating
  members : (e : ℕ) → mem e p'.free ≡ (among p i n e || mem e p.free)
  distinct : Distinct p'.free
  counted : length p'.free ≡ n + length p.free
  still :
      (e : ℕ) → (among p i n e || not (m.entry e).migrating) ≡ true → (m'.entry e).migrating ≡ false
  unused :
      (e : ℕ) → (among p i n e || not (m.entry e).allocated) ≡ true → (m'.entry e).allocated ≡ false

-- The pool and the memory after one round.
abbrev pushed : Pool → ℕ → Pool
pushed p i = record p { free = (p.entries_begin + i) ∷ p.free }

abbrev cleared : Pool → ℕ → Memory → Memory
cleared p i m = record {
  entry = update m.entry (p.entries_begin + i) (reset (m.entry (p.entries_begin + i)));
  wb = Queue.head_init m.wb (p.entries_begin + i);
}

init_from-step :
    (n i : ℕ) (p : Pool) (m : Memory)
    → at p i ≡ some (p.entries_begin + i)
    → init_from (suc n) i p m ≡ init_from n (i + 1) (pushed p i) (cleared p i m)
unfolding init_from
init_from-step n i p m e = rw (e, init_from)

init_from-fault :
    (n i : ℕ) (p : Pool) (m : Memory) → 0 < n → at p i ≡ none → init_from n i p m ≡ none
unfolding init_from
init_from-fault zero i p m some_round e = elim some_round [ ]
init_from-fault (suc n) i p m some_round e = rw (e, init_from)

init_from-Freed :
    (n i : ℕ) (p : Pool) (m : Memory)
    → p.starting_index ≡ 0
    → i + n ≡ p.nr_entries
    → p.nr_entries < u32_mod
    → Distinct p.free
    → ((e : ℕ) → mem e p.free ≡ true → e < p.entries_begin + i)
    → (p' : Pool) × (m' : Memory) × (init_from n i p m ≡ some (p', m')) × Freed i n p m p' m'
unfolding init_from at
init_from-Freed zero i p m start all small d below = (
  p,
  m,
  refl,
  record {
    same_begin = refl;
    same_size = refl;
    no_moving = refl;
    members = λ e. ground arith;
    distinct = d;
    counted = omega arith;
    still = λ e h. ground arith;
    unused = λ e h. ground arith;
  },
)
init_from-Freed (suc n) i p m start all small d below =
    let (p', m', ran, r) =
      init_from-Freed n (i + 1) (pushed p i) (cleared p i m) start (omega arith) small
        (
          ground
              (arith, below (p.entries_begin + i), Bool-cases (mem (p.entries_begin + i) p.free)),
          d,
        )
        (λ e h. ground (arith, below e, mem-cons e (p.entries_begin + i) p.free)) in
    (
      p',
      m',
      init_from-step n i p m at_lem ∙ ran,
      record {
        same_begin = r.same_begin;
        same_size = r.same_size;
        no_moving = r.no_moving;
        members = λ e. ground (arith, r.members e, mem-cons e (p.entries_begin + i) p.free);
        distinct = r.distinct;
        counted = omega (arith, r.counted);
        still = λ e h. ground (arith, r.still e);
        unused = λ e h. ground (arith, r.unused e);
      },
    )
  where
    at_lem : at p i ≡ some (p.entries_begin + i)
    at_lem = ground arith

-- For a number of entries that is a word, whatever the memory held: a pool that is created and
-- initialised from index 0 has exactly its entries on the free list, each once; none is allocated
-- or migrating, by its flags, by the list of the migrating ones and by the counters.
pub init-create :
    (address nr : ℕ) (m : Memory)
    → nr < u32_mod
    → (p : Pool) × (m' : Memory) × (init (create address nr) 0 m ≡ some (p, m'))
      × ((e : ℕ) → mem e p.free ≡ in_pool p e)
      × Distinct p.free
      × (length p.free ≡ nr)
      × (p.nr_entries ≡ nr)
      × (p.entries_begin ≡ address)
      × (p.nr_allocated ≡ 0)
      × (p.nr_migrating ≡ 0)
      × (p.migrating ≡ [])
      × ((e : ℕ) → in_pool p e ≡ true → (m'.entry e).allocated ≡ false)
      × ((e : ℕ) → in_pool p e ≡ true → (m'.entry e).migrating ≡ false)
unfolding init create in_pool
init-create address nr m small =
    let (p, m', ran, r) =
      init_from-Freed nr 0 (create address nr) m refl (omega arith) small tt
        (λ e h. ground (arith, mem-nil e)) in
    (
      record p { nr_allocated = 0; nr_migrating = 0; starting_index = 0 },
      m',
      rw ran,
      (λ e. ground (arith, r.members e, r.same_begin, r.same_size, mem-nil e)),
      r.distinct,
      omega (arith, r.counted),
      r.same_size,
      r.same_begin,
      refl,
      refl,
      r.no_moving,
      (λ e h. ground (arith, r.unused e, r.same_begin, r.same_size)),
      (λ e h. ground (arith, r.still e, r.same_begin, r.same_size)),
    )

-- Initialising a pool of some entries whose starting index is a word above 0, and whose indices do
-- not wrap, faults: its first entry is looked for outside of the array.
pub init_again :
    (p : Pool) (start : ℕ) (m : Memory)
    → 0 < p.starting_index
    → p.starting_index < u32_mod
    → 0 < p.nr_entries
    → p.nr_entries + p.starting_index ≤ u32_mod
    → init p start m ≡ none
unfolding init at
init_again p start m shifted word some_entry fits = rw (
    init_from-fault p.nr_entries 0 (record p { free = []; migrating = [] }) m some_entry
      (ground arith))

-- Such a pool is valid, and no entry is allocated or migrating that was not before or is outside.
pub init-IsValid :
    (address nr : ℕ) (m : Memory)
    → nr < u32_mod
    → (p : Pool) × (m' : Memory) × (init (create address nr) 0 m ≡ some (p, m'))
      × Valid.IsValid p m'.entry
      × ((e : ℕ) → in_pool p e ≡ in_pool (create address nr) e)
      × (p.nr_entries ≡ nr)
      × ((e : ℕ) → in_pool p e ≡ true → (m'.entry e).allocated ≡ false)
      × ((e : ℕ) → in_pool p e ≡ true → (m'.entry e).migrating ≡ false)
      × ((e : ℕ) → (m.entry e).allocated ≡ false → (m'.entry e).allocated ≡ false)
      × ((e : ℕ) → (m.entry e).migrating ≡ false → (m'.entry e).migrating ≡ false)
unfolding init create in_pool
init-IsValid address nr m small =
    let (p, m', ran, r) =
      init_from-Freed nr 0 (create address nr) m refl (omega arith) small tt
        (λ e h. ground (arith, mem-nil e)) in
    let same : (e : ℕ) → among (create address nr) 0 nr e ≡ in_pool p e =
      λ e. ground (arith, r.same_begin, r.same_size) in
    (
      record p { nr_allocated = 0; nr_migrating = 0; starting_index = 0 },
      m',
      rw ran,
      record {
        used = [];
        free_iff = λ e. ground (arith, r.members e, same e, r.unused e, mem-nil e);
        used_iff = λ e. ground (arith, same e, r.unused e, mem-nil e);
        moving_iff = λ e. ground (arith, same e, r.still e, mem-nil e, r.no_moving);
        moving_used = λ e i. ground (arith, same e, r.still e);
        free_distinct = r.distinct;
        used_distinct = tt;
        moving_distinct = subst Distinct (sym r.no_moving) tt;
        count = ground (arith, r.counted, r.same_size);
        allocated = refl;
        moves = ground (arith, ap length r.no_moving);
        small = ground (arith, r.same_size);
      },
      (λ e. ground (arith, r.same_begin, r.same_size)),
      r.same_size,
      (λ e h. ground (arith, r.unused e, same e)),
      (λ e h. ground (arith, r.still e, same e)),
      (λ e h. ground (arith, r.unused e)),
      (λ e h. ground (arith, r.still e)),
    )
