-- ===== src/Ghost/Admit.antt =====
-- The admission of a block to a valid miss history with room.
use fomo.Base.{
  ℕ, ap, ap₂, ◌∙◌, ◌+◌, ◌≡◌, refl, List, [], ◌∷◌, ◌++◌, true, false, some, ◌||◌, ◌==◌, mem, map,
  length, Distinct, remove, map_agree, mem-cons, map-snoc, length-snoc, mem-snoc, append-Distinct,
  remove-cons_self, remove_absent, ==_refl, arith, if◌then◌else◌,
}
use fomo.Table
use fomo.Table.Chain.{mem-insert, bucket-insert}
use fomo.Table.{bucket}
use fomo.Pool
use fomo.Queue
use fomo.Queue.Order.{push-IsValid, items-push, parent-push}
use fomo.Entry.{name_entry}
use fomo.Nucleus
use fomo.Nucleus.Valid.{named}
use fomo.Ghost.{Ghost, mh, entries, oblock_of, history, admit}
use fomo.Ghost.Valid.{IsValid}

-- The history with the block in its entry, the other free entries as they were.
pub admitted : Ghost → ℕ → ℕ → List ℕ → Ghost
admitted g o e rest = record {
  nucleus = record g.nucleus {
    meta_pool = record p {
      free = rest;
      migrating = remove e (remove e p.migrating);
      nr_allocated = p.nr_allocated + 1;
    };
    ht = Table.insert g.nucleus.ht (named m e o) e;
    mem = named m e o;
  };
  queues = Queue.push g.queues mh e;
}
  where
    open g.nucleus use {meta_pool as p, mem as m}

module _ (g : Ghost) (o e : ℕ) (rest : List ℕ) (v : IsValid g)
    (first : g.nucleus.meta_pool.free ≡ e ∷ rest) (new : mem o (history g) ≡ false) where
  fresh : (mem e (entries g) ≡ false) × (Pool.in_pool g.nucleus.meta_pool e ≡ true)
  fresh = ground (arith, v.free_iff e, mem-cons e e rest, ==_refl e)

  rest-Distinct : (mem e rest ≡ false) × Distinct rest
  rest-Distinct = rw first at v.free_distinct

  free-rest : (remove e (e ∷ rest) ≡ rest) × (remove e rest ≡ rest)
  free-rest = (remove-cons_self e rest rest-Distinct.0, remove_absent e rest rest-Distinct.0)

  pub admit-eq-admitted : admit g o ≡ some (admitted g o e rest)
  unfolding admit admitted named Nucleus.insert_in_meta Nucleus.alloc_pool_entry Pool.alloc_entry
      Pool.alloc_this_entry
  admit-eq-admitted =
      ground (arith, first, free-rest, v.allocated, v.count, v.small, ap length first)

  oblock_of-admitted :
      (a : ℕ) → oblock_of (admitted g o e rest) a ≡ (if a == e then o else oblock_of g a)
  unfolding admitted named name_entry
  oblock_of-admitted a = ground arith

  migrating-admitted :
      (a : ℕ)
      → ((admitted g o e rest).nucleus.mem.entry a).migrating ≡ (g.nucleus.mem.entry a).migrating
  unfolding admitted named name_entry
  migrating-admitted a = ground arith

  entries-admitted : entries (admitted g o e rest) ≡ entries g ++ e ∷ []
  unfolding admitted
  entries-admitted = items-push g.queues mh e

  mem-admitted : (a : ℕ) → mem a (entries (admitted g o e rest)) ≡ (mem a (entries g) || (a == e))
  mem-admitted a = ap (mem a) entries-admitted ∙ mem-snoc a (entries g) e

  length-admitted : length (entries (admitted g o e rest)) ≡ length (entries g) + 1
  length-admitted = ap length entries-admitted ∙ length-snoc (entries g) e

  pub history-admitted : history (admitted g o e rest) ≡ history g ++ o ∷ []
  history-admitted =
      ap (map (oblock_of (admitted g o e rest))) entries-admitted
      ∙ map-snoc (oblock_of (admitted g o e rest)) (entries g) e
      ∙ ap₂ (λ xs (x : ℕ). xs ++ x ∷ [])
          (map_agree (oblock_of (admitted g o e rest)) (oblock_of g) (entries g)
            (λ a m. ground (arith, oblock_of-admitted a, fresh)))
          (ground (arith, oblock_of-admitted e))

  pub admitted-IsValid : IsValid (admitted g o e rest)
  unfolding admitted Pool.in_pool
  admitted-IsValid = record {
    queue =
        push-IsValid g.queues mh e v.queue (v.lone e fresh.0)
          (ground (arith, ap length first, v.count, v.small));
    lone = λ a. ground (arith, parent-push g.queues mh e a, v.lone a, mem-admitted a);
    names = rw history-admitted (append-Distinct (history g) o v.names new);
    chained = λ b a. ground (
      arith,
      mem-insert g.nucleus.ht (named g.nucleus.mem e o) b a e,
      bucket-insert g.nucleus.ht (named g.nucleus.mem e o) e (oblock_of g a),
      bucket-insert g.nucleus.ht (named g.nucleus.mem e o) e o,
      v.chained b a,
      mem-admitted a,
      oblock_of-admitted a,
      oblock_of-admitted e,
      fresh,
    );
    free_iff = λ a.
        ground
          (arith, v.free_iff a, first, mem-cons a e rest, rest-Distinct, mem-admitted a, fresh);
    pooled = λ a. ground (arith, v.pooled a, mem-admitted a, fresh);
    still = λ a. ground (arith, v.still a, migrating-admitted a);
    free_distinct = rest-Distinct.1;
    count = ground (arith, v.count, length-admitted, ap length first);
    allocated = ground (arith, v.allocated, length-admitted);
    small = v.small;
    no_cache = v.no_cache;
  }

  pub size-admitted :
      (admitted g o e rest).nucleus.meta_pool.nr_entries ≡ g.nucleus.meta_pool.nr_entries
  unfolding admitted
  size-admitted = refl

  pub limit-admitted : (admitted g o e rest).nucleus.meta_size ≡ g.nucleus.meta_size
  unfolding admitted
  limit-admitted = refl
