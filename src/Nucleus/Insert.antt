-- ===== src/Nucleus/Insert.antt =====
-- src/include/cache_nucleus_internal.h: what an insertion in a pool of a valid policy leaves.
use fomo.Base.{
  ℕ, ◌<◌, ◌≡◌, refl, ap, List, ◌∷◌, true, false, Option-cases, inl, inr, some, ◌&&◌, ◌||◌, ◌==◌,
  mem, mem-cons, remove-cons_self, remove_absent, length, Distinct, ==_refl, if◌then◌else◌, arith,
}
use fomo.Entry.{Memory, name_entry}
use fomo.Pool
use fomo.Pool.{Pool, in_pool, infer_cblock}
use fomo.Pool.Valid
use fomo.Pool.Valid.{taken, take-IsValid, frame-IsValid}
use fomo.Table
use fomo.Table.{bucket}
use fomo.Table.Chain.{mem-insert, bucket-insert}
use fomo.Nucleus.{Nucleus, Result, insert_in_cache, insert_in_meta, alloc_pool_entry}
use fomo.Nucleus.Valid.{IsValid, named, oblock_of, in_cache_pool, in_meta_pool, live}

-- An entry of a pool of at least two has an index.
pub infer_cblock_some :
    (p : Pool) (e : ℕ)
    → 1 < p.nr_entries
    → in_pool p e ≡ true
    → (c : ℕ) × (infer_cblock p e ≡ some c)
unfolding infer_cblock
infer_cblock_some p e two inside = elim (Option-cases (infer_cblock p e)) [
  | inl p ↦ absurd (ground arith)
  | inr found ↦ found
]

-- What an allocation of the first free entry of a pool returns.
pub alloc_pool_entry-first :
    (t : Table.Table) (m : Memory) (p : Pool) (o e : ℕ) (rest : List ℕ)
    → Valid.IsValid p m.entry
    → p.free ≡ e ∷ rest
    → alloc_pool_entry t m p o
      ≡ some (e, Table.insert t (named m e o) e, named m e o, taken p e rest)
unfolding alloc_pool_entry named Pool.alloc_entry Pool.alloc_this_entry
alloc_pool_entry-first t m p o e rest v first =
    let d : (mem e rest ≡ false) × Distinct rest = rw first at v.free_distinct in
    ground (
      arith,
      first,
      remove-cons_self e rest d.0,
      remove_absent e rest d.0,
      v.allocated,
      v.count,
      v.small,
      ap length first,
    )

-- The policy with the first free entry of its cache pool taken for the block.
unfoldable pub stocked : Nucleus → ℕ → ℕ → List ℕ → Nucleus
stocked n e o rest = record n {
  cache_pool = taken n.cache_pool e rest;
  ht = Table.insert n.ht (named n.mem e o) e;
  mem = named n.mem e o;
}

-- The same of its meta pool.
unfoldable pub shelved : Nucleus → ℕ → ℕ → List ℕ → Nucleus
shelved n e o rest = record n {
  meta_pool = taken n.meta_pool e rest;
  ht = Table.insert n.ht (named n.mem e o) e;
  mem = named n.mem e o;
}

module _ (m : Memory) (e o : ℕ) where
  pub oblock-named :
      (a : ℕ) → ((named m e o).entry a).oblock ≡ (if a == e then o else (m.entry a).oblock)
  unfolding named name_entry
  oblock-named a = ground arith

  pub allocated-named :
      (a : ℕ) → ((named m e o).entry a).allocated ≡ (if a == e then true else (m.entry a).allocated)
  unfolding named name_entry
  allocated-named a = ground arith

  pub migrating-named : (a : ℕ) → ((named m e o).entry a).migrating ≡ (m.entry a).migrating
  unfolding named name_entry
  migrating-named a = ground arith

-- What an insertion in one of the pools changes.
pub record Adds (n n' : Nucleus) (e o : ℕ) : Type 0 where
  pub adds_live : (a : ℕ) → live n' a ≡ (live n a || (a == e))
  pub adds_cache : (a : ℕ) → in_cache_pool n' a ≡ in_cache_pool n a
  pub adds_meta : (a : ℕ) → in_meta_pool n' a ≡ in_meta_pool n a
  pub adds_moving : (a : ℕ) → (n'.mem.entry a).migrating ≡ (n.mem.entry a).migrating
  pub adds_oblock : (a : ℕ) → oblock_of n' a ≡ (if a == e then o else oblock_of n a)

in_taken :
    (p : Pool) (e : ℕ) (rest : List ℕ) → in_pool p e ≡ true → in_pool (taken p e rest) e ≡ true
unfolding in_pool
in_taken p e rest inside = inside

module _ (n : Nucleus) (o e : ℕ) (rest : List ℕ) (v : IsValid n)
    (new : (a : ℕ) → live n a ≡ true → (oblock_of n a == o) ≡ false) where
  -- The chains and the names after the insertion.
  grown-chained :
      live n e ≡ false
      → (b a : ℕ)
      → mem a ((Table.insert n.ht (named n.mem e o) e).table b) ≡ (
          (live n a || (a == e))
          && (bucket (Table.insert n.ht (named n.mem e o) e) ((named n.mem e o).entry a).oblock
              == b))
  grown-chained unused b a = ground (
    arith,
    mem-insert n.ht (named n.mem e o) b a e,
    bucket-insert n.ht (named n.mem e o) e (oblock_of n a),
    bucket-insert n.ht (named n.mem e o) e o,
    v.chained b a,
    oblock-named n.mem e o a,
    oblock-named n.mem e o e,
    unused,
  )

  grown-names :
      (c a : ℕ)
      → (live n c || (c == e)) ≡ true
      → (live n a || (a == e)) ≡ true
      → (((named n.mem e o).entry c).oblock == ((named n.mem e o).entry a).oblock) ≡ (c == a)
  grown-names c a l k =
      ground (arith, v.names c a, new c, new a, oblock-named n.mem e o c, oblock-named n.mem e o a)

  module _ (first : n.cache_pool.free ≡ e ∷ rest) where
    stock_free : (in_cache_pool n e ≡ true) × ((n.mem.entry e).allocated ≡ false)
    stock_free = ground (arith, v.cache.free_iff e, first, mem-cons e e rest, ==_refl e)

    pub stocked-Adds : Adds n (stocked n e o rest) e o
    unfolding stocked in_pool
    stocked-Adds = record {
      adds_live = λ a. ground (arith, allocated-named n.mem e o a, stock_free);
      adds_cache = λ a. refl;
      adds_meta = λ a. refl;
      adds_moving = λ a. migrating-named n.mem e o a;
      adds_oblock = λ a. oblock-named n.mem e o a;
    }

    pub stocked-IsValid : IsValid (stocked n e o rest)
    unfolding stocked in_pool
    stocked-IsValid = record {
      cache =
          take-IsValid n.cache_pool n.mem.entry (named n.mem e o).entry e v.cache rest first
            (allocated-named n.mem e o) (migrating-named n.mem e o);
      meta =
          frame-IsValid n.meta_pool n.mem.entry (named n.mem e o).entry v.meta
            (λ a i. ground (arith, allocated-named n.mem e o a, v.apart e, stock_free))
            (λ a i. migrating-named n.mem e o a);
      apart = v.apart;
      chained = λ b a.
          ground (arith, grown-chained (ground (arith, stock_free)) b a, stocked-Adds.adds_live a);
      names = λ c a l k.
          grown-names c a (ground (arith, stocked-Adds.adds_live c))
            (ground (arith, stocked-Adds.adds_live a));
    }

    -- `insert_in_cache` leaves that, with the index of the entry in the result.
    pub insert_in_cache-stocked :
        (result : Result)
        → 1 < n.cache_pool.nr_entries
        → (c : ℕ) × (insert_in_cache n o (some result)
            ≡ some (e, stocked n e o rest, some (record result { cblock = c })))
    unfolding insert_in_cache stocked
    insert_in_cache-stocked result two =
        let (c, found) =
          infer_cblock_some (taken n.cache_pool e rest) e two
            (in_taken n.cache_pool e rest stock_free.0) in
        (c, rw (alloc_pool_entry-first n.ht n.mem n.cache_pool o e rest v.cache first, found) refl)

  module _ (first : n.meta_pool.free ≡ e ∷ rest) where
    shelf_free : (in_meta_pool n e ≡ true) × ((n.mem.entry e).allocated ≡ false)
    shelf_free = ground (arith, v.meta.free_iff e, first, mem-cons e e rest, ==_refl e)

    pub shelved-Adds : Adds n (shelved n e o rest) e o
    unfolding shelved in_pool
    shelved-Adds = record {
      adds_live = λ a. ground (arith, allocated-named n.mem e o a, shelf_free);
      adds_cache = λ a. refl;
      adds_meta = λ a. refl;
      adds_moving = λ a. migrating-named n.mem e o a;
      adds_oblock = λ a. oblock-named n.mem e o a;
    }

    pub shelved-IsValid : IsValid (shelved n e o rest)
    unfolding shelved in_pool
    shelved-IsValid = record {
      cache =
          frame-IsValid n.cache_pool n.mem.entry (named n.mem e o).entry v.cache
            (λ a i. ground (arith, allocated-named n.mem e o a, v.apart a i, shelf_free))
            (λ a i. migrating-named n.mem e o a);
      meta =
          take-IsValid n.meta_pool n.mem.entry (named n.mem e o).entry e v.meta rest first
            (allocated-named n.mem e o) (migrating-named n.mem e o);
      apart = v.apart;
      chained = λ b a.
          ground (arith, grown-chained (ground (arith, shelf_free)) b a, shelved-Adds.adds_live a);
      names = λ c a l k.
          grown-names c a (ground (arith, shelved-Adds.adds_live c))
            (ground (arith, shelved-Adds.adds_live a));
    }

    -- `insert_in_meta` leaves that.
    pub insert_in_meta-shelved : insert_in_meta n o ≡ some (e, shelved n e o rest)
    unfolding insert_in_meta shelved
    insert_in_meta-shelved =
        rw (alloc_pool_entry-first n.ht n.mem n.meta_pool o e rest v.meta first) refl
