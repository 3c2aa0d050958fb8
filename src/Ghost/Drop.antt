-- ===== src/Ghost/Drop.antt =====
-- The removal of an entry from a valid miss history.
use fomo.Base.{
  ℕ, ap, ◌∙◌, ◌+◌, ◌-◌, ◌≡◌, refl, ◌∷◌, true, false, some, not, ◌&&◌, ◌==◌, mem, map, length,
  remove, update, map-remove, map_agree, length-remove, remove-Distinct, mem-remove, mem-cons,
  mem_length_pos, arith,
}
use fomo.Table
use fomo.Table.Chain.{mem-take_out, bucket-take_out}
use fomo.Table.{bucket}
use fomo.Pool
use fomo.Queue
use fomo.Queue.Order.{take_out-IsValid, items-take_out, parent-take_out}
use fomo.Nucleus
use fomo.Ghost.{Ghost, mh, entries, oblock_of, history, drop}
use fomo.Ghost.Valid.{IsValid}

-- The history without an entry of it, which is free again.
unfoldable pub dropped : Ghost → ℕ → Ghost
dropped g e = record {
  nucleus = record g.nucleus {
    meta_pool = record p { free = e ∷ p.free; nr_allocated = p.nr_allocated - 1 };
    ht = Table.take_out g.nucleus.ht e;
    mem = record {
      entry = update m.entry e (record (m.entry e) { allocated = false; migrating = false });
      wb = Queue.take_out m.wb e;
    };
  };
  queues = Queue.take_out g.queues e;
}
  where
    open g.nucleus use {meta_pool as p, mem as m}

module _ (g : Ghost) (e : ℕ) (v : IsValid g) (i : mem e (entries g) ≡ true) where
  pub drop-eq-dropped : drop g e ≡ some (dropped g e)
  unfolding drop dropped Nucleus.remove_entry Pool.free_entry Pool.in_pool
  drop-eq-dropped = ground (
    arith,
    v.no_cache,
    v.pooled e,
    v.still e,
    v.allocated,
    v.count,
    v.small,
    mem_length_pos e (entries g),
  )

  entries-dropped : entries (dropped g e) ≡ remove e (entries g)
  unfolding dropped
  entries-dropped = items-take_out g.queues mh e v.queue i

  oblock_of-dropped : (a : ℕ) → oblock_of (dropped g e) a ≡ oblock_of g a
  unfolding dropped
  oblock_of-dropped a = ground arith

  pub history-dropped : history (dropped g e) ≡ remove (oblock_of g e) (history g)
  history-dropped =
      map_agree (oblock_of (dropped g e)) (oblock_of g) (entries (dropped g e))
        (λ a _. oblock_of-dropped a)
      ∙ ap (map (oblock_of g)) entries-dropped
      ∙ map-remove (oblock_of g) e (entries g) v.names i

  mem-dropped : (a : ℕ) → mem a (entries (dropped g e)) ≡ (not (a == e) && mem a (entries g))
  mem-dropped a = ap (mem a) entries-dropped ∙ mem-remove a e (entries g)

  length-dropped : length (entries (dropped g e)) + 1 ≡ length (entries g)
  length-dropped =
      ap (λ l. length l + 1) entries-dropped ∙ length-remove e (entries g) v.queue.distinct i

  pub dropped-IsValid : IsValid (dropped g e)
  unfolding dropped Pool.in_pool
  dropped-IsValid = record {
    queue = take_out-IsValid g.queues mh e v.queue;
    lone = λ a. ground (arith, parent-take_out g.queues e a, v.lone a, mem-dropped a);
    names = rw history-dropped (remove-Distinct (oblock_of g e) (history g) v.names);
    chained = λ b a. ground (
      arith,
      mem-take_out g.nucleus.ht b a e,
      bucket-take_out g.nucleus.ht e (oblock_of g a),
      v.chained b a,
      mem-dropped a,
      oblock_of-dropped a,
    );
    free_iff = λ a.
        ground
          (arith, mem-cons a e g.nucleus.meta_pool.free, v.free_iff a, v.pooled e, mem-dropped a);
    pooled = λ a. ground (arith, v.pooled a, mem-dropped a);
    still = λ a. ground (arith, v.still a);
    free_distinct = ground (arith, v.free_iff e, v.free_distinct);
    count = ground (arith, v.count, length-dropped);
    allocated = ground (arith, v.allocated, length-dropped);
    small = v.small;
    no_cache = v.no_cache;
  }

  pub size-dropped : (dropped g e).nucleus.meta_pool.nr_entries ≡ g.nucleus.meta_pool.nr_entries
  unfolding dropped
  size-dropped = refl

  pub limit-dropped : (dropped g e).nucleus.meta_size ≡ g.nucleus.meta_size
  unfolding dropped
  limit-dropped = refl
