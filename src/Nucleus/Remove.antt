-- ===== src/Nucleus/Remove.antt =====
-- src/include/cache_nucleus_internal.h and src/include/tools/epool.h: what the removal of an entry
-- of a valid policy leaves, and the beginning and the end of a migration.
use fomo.Base.{
  ℕ, ◌+◌, ◌-◌, ◌<◌, ◌≤◌, ◌≡◌, refl, ◌∷◌, true, false, some, not, ◌&&◌, ◌==◌, mem, remove,
  remove_absent, length, update, if◌then◌else◌, arith, Bool-cases, inl, inr, mem_length_pos,
}
use fomo.Entry.{Memory, Entry}
use fomo.Pool.{Pool, in_pool, free_entry, migrating_entry, migrated_entry}
use fomo.Pool.Valid
use fomo.Pool.Valid.{
  frame-IsValid, release-IsValid, move-IsValid, settle-IsValid, moving-le, moving-lt, allocated_pos,
}
use fomo.Queue
use fomo.Table
use fomo.Table.{bucket}
use fomo.Table.Chain.{mem-take_out, bucket-take_out}
use fomo.Nucleus.{Nucleus, remove_entry}
use fomo.Nucleus.Valid.{IsValid, oblock_of, in_cache_pool, in_meta_pool, live}

-- A pool after one of its entries has been freed.
abbrev pub freed : Pool → (ℕ → Entry) → ℕ → Pool
freed p f e = record p {
  free = e ∷ p.free;
  migrating = remove e p.migrating;
  nr_allocated = p.nr_allocated - 1;
  nr_migrating = if (f e).migrating then p.nr_migrating - 1 else p.nr_migrating;
}

-- The memory after an entry has been freed.
pub blank : Memory → ℕ → Memory
blank m e = record m {
  entry = update m.entry e (record (m.entry e) { allocated = false; migrating = false });
}

pub free_entry-freed :
    (p : Pool) (m : Memory) (e : ℕ)
    → Valid.IsValid p m.entry
    → in_pool p e ≡ true
    → (m.entry e).allocated ≡ true
    → free_entry p m e ≡ some (freed p m.entry e, blank m e)
unfolding free_entry blank
free_entry-freed p m e v inside on =
    let listed : mem e p.free ≡ false = ground (arith, v.free_iff e) in
    let many : length p.migrating ≤ length v.used = moving-le p m.entry m.entry e v in
    let some_on : 0 < p.nr_allocated = allocated_pos p m.entry m.entry e v inside on in
    elim (Bool-cases (m.entry e).migrating) [
      | inl moving ↦ ground (
        arith,
        remove_absent e p.free listed,
        v.allocated,
        v.count,
        v.small,
        v.moves,
        v.moving_iff e,
        mem_length_pos e p.migrating,
      )
      | inr still ↦
          ground (arith, v.allocated, v.count, v.small, v.moving_iff e, remove_absent e p.migrating)
    ]

pub migrating_entry-moved :
    (p : Pool) (m : Memory) (e : ℕ)
    → Valid.IsValid p m.entry
    → in_pool p e ≡ true
    → (m.entry e).allocated ≡ true
    → (m.entry e).migrating ≡ false
    → migrating_entry p m e
      ≡ some (
        record p { migrating = e ∷ p.migrating; nr_migrating = p.nr_migrating + 1 },
        record m { entry = update m.entry e (record (m.entry e) { migrating = true }) },
      )
unfolding migrating_entry
migrating_entry-moved p m e v inside on still =
    let many : length p.migrating < length v.used =
      moving-lt p m.entry m.entry e v inside on still in
    let some_on : 0 < p.nr_allocated = allocated_pos p m.entry m.entry e v inside on in
    ground (arith, v.count, v.small, v.moves)

pub migrated_entry-settled :
    (p : Pool) (m : Memory) (e : ℕ)
    → Valid.IsValid p m.entry
    → in_pool p e ≡ true
    → (m.entry e).migrating ≡ true
    → migrated_entry p m e
      ≡ some (
        record p {
          free = remove e p.free;
          migrating = remove e p.migrating;
          nr_migrating = p.nr_migrating - 1;
        },
        record m { entry = update m.entry e (record (m.entry e) { migrating = false }) },
      )
unfolding migrated_entry
migrated_entry-settled p m e v inside moving =
    let on : (m.entry e).allocated ≡ true = v.moving_used e inside moving in
    let many : length p.migrating ≤ length v.used = moving-le p m.entry m.entry e v in
    let some_on : 0 < p.nr_allocated = allocated_pos p m.entry m.entry e v inside on in
    ground (arith, v.count, v.small, v.moves, v.moving_iff e, mem_length_pos e p.migrating)

-- The policy with an entry of its cache pool freed.
unfoldable pub unstocked : Nucleus → ℕ → Nucleus
unstocked n e = record n {
  cache_pool = freed n.cache_pool n.mem.entry e;
  ht = Table.take_out n.ht e;
  mem = blank (record n.mem { wb = Queue.take_out n.mem.wb e }) e;
}

-- The same of its meta pool.
unfoldable pub unshelved : Nucleus → ℕ → Nucleus
unshelved n e = record n {
  meta_pool = freed n.meta_pool n.mem.entry e;
  ht = Table.take_out n.ht e;
  mem = blank (record n.mem { wb = Queue.take_out n.mem.wb e }) e;
}

-- What the removal of an entry changes.
pub record Drops (n n' : Nucleus) (e : ℕ) : Type 0 where
  pub drops_live : (a : ℕ) → live n' a ≡ (live n a && not (a == e))
  pub drops_cache : (a : ℕ) → in_cache_pool n' a ≡ in_cache_pool n a
  pub drops_meta : (a : ℕ) → in_meta_pool n' a ≡ in_meta_pool n a
  pub drops_moving :
      (a : ℕ) → (n'.mem.entry a).migrating ≡ (if a == e then false else (n.mem.entry a).migrating)
  pub drops_oblock : (a : ℕ) → oblock_of n' a ≡ oblock_of n a
  pub spares : (a : ℕ) → (a == e) ≡ false → n'.mem.entry a ≡ n.mem.entry a
  pub same_time : n'.time ≡ n.time

module _ (n : Nucleus) (e : ℕ) (v : IsValid n) where
  module _ (inside : in_cache_pool n e ≡ true) (on : (n.mem.entry e).allocated ≡ true) where
    -- `cache_nucleus_remove` leaves that.
    pub remove_entry-unstocked : remove_entry n e ≡ some (unstocked n e)
    unfolding remove_entry unstocked
    remove_entry-unstocked =
        rw
          (
            inside,
            free_entry-freed n.cache_pool (record n.mem { wb = Queue.take_out n.mem.wb e }) e
                v.cache inside on,
          )
          refl

    pub unstocked-Drops : Drops n (unstocked n e) e
    unfolding unstocked in_pool blank
    unstocked-Drops = record {
      drops_live = λ a. ground arith;
      drops_cache = λ a. refl;
      drops_meta = λ a. refl;
      drops_moving = λ a. ground arith;
      drops_oblock = λ a. ground arith;
      spares = λ a other. ground arith;
      same_time = refl;
    }

    pub unstocked-IsValid : IsValid (unstocked n e)
    unfolding unstocked in_pool blank
    unstocked-IsValid = record {
      cache =
          release-IsValid n.cache_pool n.mem.entry
            (blank (record n.mem { wb = Queue.take_out n.mem.wb e }) e).entry e v.cache inside on
            (λ a. ground arith) (λ a. ground arith);
      meta =
          frame-IsValid n.meta_pool n.mem.entry
            (blank (record n.mem { wb = Queue.take_out n.mem.wb e }) e).entry v.meta
            (λ a i. ground (arith, v.apart e inside)) (λ a i. ground (arith, v.apart e inside));
      apart = v.apart;
      chained = λ b a. ground (
        arith,
        mem-take_out n.ht b a e,
        bucket-take_out n.ht e (oblock_of n a),
        v.chained b a,
        unstocked-Drops.drops_live a,
      );
      names = λ c a l k.
          ground (arith, v.names c a, unstocked-Drops.drops_live a, unstocked-Drops.drops_live c);
    }

  module _ (outside : in_cache_pool n e ≡ false) (inside : in_meta_pool n e ≡ true)
      (on : (n.mem.entry e).allocated ≡ true) where
    pub remove_entry-unshelved : remove_entry n e ≡ some (unshelved n e)
    unfolding remove_entry unshelved
    remove_entry-unshelved =
        rw
          (
            outside,
            free_entry-freed n.meta_pool (record n.mem { wb = Queue.take_out n.mem.wb e }) e v.meta
                inside on,
          )
          refl

    pub unshelved-Drops : Drops n (unshelved n e) e
    unfolding unshelved in_pool blank
    unshelved-Drops = record {
      drops_live = λ a. ground arith;
      drops_cache = λ a. refl;
      drops_meta = λ a. refl;
      drops_moving = λ a. ground arith;
      drops_oblock = λ a. ground arith;
      spares = λ a other. ground arith;
      same_time = refl;
    }

    pub unshelved-IsValid : IsValid (unshelved n e)
    unfolding unshelved in_pool blank
    unshelved-IsValid = record {
      cache =
          frame-IsValid n.cache_pool n.mem.entry
            (blank (record n.mem { wb = Queue.take_out n.mem.wb e }) e).entry v.cache
            (λ a i. ground (arith, outside)) (λ a i. ground (arith, outside));
      meta =
          release-IsValid n.meta_pool n.mem.entry
            (blank (record n.mem { wb = Queue.take_out n.mem.wb e }) e).entry e v.meta inside on
            (λ a. ground arith) (λ a. ground arith);
      apart = v.apart;
      chained = λ b a. ground (
        arith,
        mem-take_out n.ht b a e,
        bucket-take_out n.ht e (oblock_of n a),
        v.chained b a,
        unshelved-Drops.drops_live a,
      );
      names = λ c a l k.
          ground (arith, v.names c a, unshelved-Drops.drops_live a, unshelved-Drops.drops_live c);
    }

-- The policy with a used entry of its cache pool on the move.
unfoldable pub started : Nucleus → ℕ → Nucleus
started n e = record n {
  cache_pool = record n.cache_pool {
    migrating = e ∷ n.cache_pool.migrating;
    nr_migrating = n.cache_pool.nr_migrating + 1;
  };
  mem = record n.mem { entry = update n.mem.entry e (record (n.mem.entry e) { migrating = true }) };
}

-- The policy with such an entry arrived.
unfoldable pub arrived : Nucleus → ℕ → Nucleus
arrived n e = record n {
  cache_pool = record n.cache_pool {
    free = remove e n.cache_pool.free;
    migrating = remove e n.cache_pool.migrating;
    nr_migrating = n.cache_pool.nr_migrating - 1;
  };
  mem = record n.mem {
    entry = update n.mem.entry e (record (n.mem.entry e) { migrating = false });
  };
}

module _ (n : Nucleus) (e : ℕ) (v : IsValid n) (inside : in_cache_pool n e ≡ true) where
  pub started-IsValid :
      (n.mem.entry e).allocated ≡ true → (n.mem.entry e).migrating ≡ false → IsValid (started n e)
  unfolding started in_pool
  started-IsValid on still = record {
    cache =
        move-IsValid n.cache_pool n.mem.entry (started n e).mem.entry e v.cache inside on still
          (λ a. ground arith) (λ a. ground arith);
    meta =
        frame-IsValid n.meta_pool n.mem.entry (started n e).mem.entry v.meta (λ a i. ground arith)
          (λ a i. ground (arith, v.apart e inside));
    apart = v.apart;
    chained = λ b a. ground (arith, v.chained b a);
    names = λ c a l k. ground (arith, v.names c a);
  }

  pub arrived-IsValid : (n.mem.entry e).migrating ≡ true → IsValid (arrived n e)
  unfolding arrived in_pool
  arrived-IsValid moving = record {
    cache =
        settle-IsValid n.cache_pool n.mem.entry (arrived n e).mem.entry e v.cache inside moving
          (λ a. ground arith) (λ a. ground arith);
    meta =
        frame-IsValid n.meta_pool n.mem.entry (arrived n e).mem.entry v.meta (λ a i. ground arith)
          (λ a i. ground (arith, v.apart e inside));
    apart = v.apart;
    chained = λ b a. ground (arith, v.chained b a);
    names = λ c a l k. ground (arith, v.names c a);
  }

module _ (n : Nucleus) (e : ℕ) where
  pub live-started : (a : ℕ) → live (started n e) a ≡ live n a
  unfolding started in_pool
  live-started a = ground arith

  pub in_cache_pool-started : (a : ℕ) → in_cache_pool (started n e) a ≡ in_cache_pool n a
  unfolding started in_pool
  in_cache_pool-started a = refl

  pub in_cache_pool-arrived : (a : ℕ) → in_cache_pool (arrived n e) a ≡ in_cache_pool n a
  unfolding arrived in_pool
  in_cache_pool-arrived a = refl

  pub oblock_of-started : (a : ℕ) → oblock_of (started n e) a ≡ oblock_of n a
  unfolding started
  oblock_of-started a = ground arith

  pub migrating-started :
      (a : ℕ)
      → ((started n e).mem.entry a).migrating ≡ (if a == e then true else (n.mem.entry a).migrating)
  unfolding started
  migrating-started a = ground arith

  pub live-arrived : (a : ℕ) → live (arrived n e) a ≡ live n a
  unfolding arrived in_pool
  live-arrived a = ground arith

  pub migrating-arrived :
      (a : ℕ)
      → ((arrived n e).mem.entry a).migrating
        ≡ (if a == e then false else (n.mem.entry a).migrating)
  unfolding arrived
  migrating-arrived a = ground arith
