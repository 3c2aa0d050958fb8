-- ===== src/Ghost/Steps.antt =====
-- The steps of a miss history, by the lists that it shows before and after.
use fomo.Base.{
  ℕ, Distinct, remove-cons_self, subst, ap, ap₂, uncons, ◌∙◌, ◌<◌, ◌≡◌, refl, List, [], ◌∷◌, ◌++◌,
  true, false, some, mem, map, length, remove, map-remove, map-snoc, length-map, length-remove,
  remove-Distinct, mem-remove, mem-cons, mem-snoc, length-snoc, append-Distinct, head?, ==_refl,
  arith,
}
use fomo.Entry.Stats.{Stats}
use fomo.Queue
use fomo.Queue.Order.{
  take_out-IsValid, push-IsValid, items-take_out, parent-take_out, items-push, parent-push,
}
use fomo.Ghost.{Ghost, mh, entries, oblock_of, history, find, drop, admit, bump, oldest, forget}
use fomo.Ghost.Valid.{IsValid, Shows, IsEntry}
use fomo.Ghost.Find.{find-Shows, find-IsEntry, find_present}
use fomo.Ghost.Drop.{
  dropped, drop-eq-dropped, history-dropped, dropped-IsValid, size-dropped, limit-dropped,
}
use fomo.Ghost.Admit.{
  admitted, admit-eq-admitted, history-admitted, admitted-IsValid, size-admitted, limit-admitted,
}

module _ (g : Ghost) (e : ℕ) (v : IsValid g) (i : mem e (entries g) ≡ true) where
  entries-bump : entries (bump g e) ≡ remove e (entries g) ++ e ∷ []
  unfolding bump
  entries-bump =
      items-push (Queue.take_out g.queues e) mh e
      ∙ ap (λ xs. xs ++ e ∷ []) (items-take_out g.queues mh e v.queue i)

  mem-bump : (a : ℕ) → mem a (entries (bump g e)) ≡ mem a (entries g)
  mem-bump a =
      ground (arith, entries-bump, mem-snoc a (remove e (entries g)) e, mem-remove a e (entries g))

  length-bump : length (entries (bump g e)) ≡ length (entries g)
  length-bump = ground (
    arith,
    entries-bump,
    length-snoc (remove e (entries g)) e,
    length-remove e (entries g) v.queue.distinct i,
  )

  history-bump : history (bump g e) ≡ remove (oblock_of g e) (history g) ++ oblock_of g e ∷ []
  unfolding bump
  history-bump =
      unfold bump in
      (ap (map (oblock_of g)) entries-bump
        ∙ map-snoc (oblock_of g) (remove e (entries g)) e
        ∙ ap (λ xs. xs ++ oblock_of g e ∷ []) (map-remove (oblock_of g) e (entries g) v.names i))

  bump-IsValid : IsValid (bump g e)
  unfolding bump
  bump-IsValid = record {
    queue =
        push-IsValid (Queue.take_out g.queues e) mh e (take_out-IsValid g.queues mh e v.queue)
          (ground (arith, parent-take_out g.queues e e))
          (ground (
            arith,
            items-take_out g.queues mh e v.queue i,
            length-remove e (entries g) v.queue.distinct i,
            v.count,
            v.small,
          ));
    lone = λ a. ground (
      arith,
      parent-push (Queue.take_out g.queues e) mh e a,
      parent-take_out g.queues e a,
      v.lone a,
      mem-bump a,
      mem-bump e,
    );
    names = rw history-bump (
        append-Distinct (remove (oblock_of g e) (history g)) (oblock_of g e)
          (remove-Distinct (oblock_of g e) (history g) v.names)
          (ground (arith, mem-remove (oblock_of g e) (oblock_of g e) (history g))));
    chained = λ b a. ground (arith, v.chained b a, mem-bump a);
    free_iff = λ a. ground (arith, v.free_iff a, mem-bump a);
    pooled = λ a. ground (arith, v.pooled a, mem-bump a);
    still = v.still;
    free_distinct = v.free_distinct;
    count = ground (arith, v.count, length-bump);
    allocated = ground (arith, v.allocated, length-bump);
    small = v.small;
    no_cache = v.no_cache;
  }

module _ {cap : ℕ} {h : List ℕ} (g : Ghost) (s : Shows cap g h) where
  -- Dropping the entry of a block from a valid history succeeds, and the history then shows the
  -- other blocks in their order.
  pub drop-Shows :
      {e o : ℕ} → IsEntry g e o → (g' : Ghost) × (drop g e ≡ some g') × Shows cap g' (remove o h)
  drop-Shows {e} {o} i = (
    dropped g e,
    drop-eq-dropped g e s.valid i.inside,
    record {
      valid = dropped-IsValid g e s.valid i.inside;
      shown = history-dropped g e s.valid i.inside ∙ ap₂ remove i.named s.shown;
      size = size-dropped g e s.valid i.inside ∙ s.size;
      limit = limit-dropped g e s.valid i.inside ∙ s.limit;
    },
  )

  -- Admitting a block that a valid history with room does not show succeeds, and the history then
  -- shows it as the most recent.
  pub admit-Shows :
      (o : ℕ)
      → mem o h ≡ false
      → length h < cap
      → (g' : Ghost) × (admit g o ≡ some g') × Shows cap g' (h ++ o ∷ [])
  admit-Shows o new room =
      let (e, rest, first) = uncons g.nucleus.meta_pool.free some_free in
      (
        admitted g o e rest,
        admit-eq-admitted g o e rest s.valid first absent,
        record {
          valid = admitted-IsValid g o e rest s.valid first absent;
          shown =
              history-admitted g o e rest s.valid first absent
              ∙ ap (λ (xs : List ℕ). xs ++ o ∷ []) s.shown;
          size = size-admitted g o e rest s.valid first absent ∙ s.size;
          limit = limit-admitted g o e rest s.valid first absent ∙ s.limit;
        },
      )
    where
      absent : mem o (history g) ≡ false
      absent = rw s.shown new

      some_free : 0 < length g.nucleus.meta_pool.free
      some_free = omega (
        arith,
        s.valid.count,
        s.size,
        length-map (oblock_of g) (entries g),
        ap (length {A = ℕ}) s.shown,
      )

  -- Bumping the entry of a block makes the block the most recent that a valid history shows, the
  -- others in their order.
  pub bump-Shows : {e o : ℕ} → IsEntry g e o → Shows cap (bump g e) (remove o h ++ o ∷ [])
  unfolding bump
  bump-Shows {e} {o} i = record {
    valid = bump-IsValid g e s.valid i.inside;
    shown =
        history-bump g e s.valid i.inside
        ∙ ap₂ (λ (a : ℕ) (xs : List ℕ). remove a xs ++ a ∷ []) i.named s.shown;
    size = size-bump ∙ s.size;
    limit = limit-bump ∙ s.limit;
  }
    where
      size-bump : (bump g e).nucleus.meta_pool.nr_entries ≡ g.nucleus.meta_pool.nr_entries
      size-bump = refl

      limit-bump : (bump g e).nucleus.meta_size ≡ g.nucleus.meta_size
      limit-bump = refl

  -- In a valid history that shows some block, the entry at the head of the queue is that of the
  -- block missed least recently.
  pub oldest-Shows :
      {o : ℕ} {rest : List ℕ} → h ≡ o ∷ rest → (e : ℕ) × (oldest g ≡ some e) × IsEntry g e o
  unfolding oldest Queue.peek mem
  oldest-Shows {o} {rest} p =
      let (e, es, first) = uncons (entries g) some_entry in
      (
        e,
        ap head? first,
        record {
          inside = ground (arith, first, mem-cons e e es, ==_refl e);
          named = ground (arith, first, s.shown, p);
        },
      )
    where
      some_entry : 0 < length (entries g)
      some_entry =
          omega (arith, length-map (oblock_of g) (entries g), ap (length {A = ℕ}) (s.shown ∙ p))

  -- The length field counts the blocks shown.
  pub len-Shows : g.queues.len mh ≡ length h
  len-Shows = ground (arith, s.valid.queue.len_eq, s.shown, length-map (oblock_of g) (entries g))

-- The list without its first block.
abbrev pub rest_of : List ℕ → List ℕ
rest_of [] = []
rest_of (o ∷ h) = h

-- Dropping the entry of the oldest block leaves the other blocks.
pub drop-oldest-Shows :
    {cap : ℕ} {h : List ℕ} (g : Ghost) (s : Shows cap g h)
    → 0 < length h
    → (e : ℕ) × (g' : Ghost) × (oldest g ≡ some e) × (drop g e ≡ some g') × Shows cap g' (rest_of h)
drop-oldest-Shows {cap} {h} g s some_block =
    let (o, rest, first) = uncons h some_block in
    let (e, old, i) = oldest-Shows g s first in
    let (g', dropped, s') = drop-Shows g s i in
    let d : Distinct (o ∷ rest) = subst Distinct (s.shown ∙ first) s.valid.names in
    let same : remove o h ≡ rest_of h = ground (arith, first, remove-cons_self o rest d.0) in
    (e, g', old, dropped, subst (Shows cap g') same s')

-- Looking a shown block up and dropping its entry removes the block.
pub forget-Shows :
    {cap : ℕ} {h : List ℕ} (g : Ghost) (s : Shows cap g h) (o : ℕ)
    → mem o h ≡ true
    → (g' : Ghost) × (forget g o ≡ some g') × Shows cap g' (remove o h)
unfolding forget
forget-Shows g s o m =
    let (e, found) = find_present g o s.valid (rw s.shown m) in
    let (g', dropped, s') =
      drop-Shows (find g o).1 (find-Shows g o s) (find-IsEntry g o s.valid found) in
    (g', rw found dropped, s')

-- The statistics are no part of the history.
pub stats-Shows :
    {cap : ℕ} {h : List ℕ} (g : Ghost) (st : Stats)
    → Shows cap g h
    → Shows cap (record g { nucleus = record g.nucleus { stats = st } }) h
stats-Shows g st s = record {
  valid = record {
    queue = s.valid.queue;
    lone = s.valid.lone;
    names = s.valid.names;
    chained = s.valid.chained;
    free_iff = s.valid.free_iff;
    pooled = s.valid.pooled;
    still = s.valid.still;
    free_distinct = s.valid.free_distinct;
    count = s.valid.count;
    allocated = s.valid.allocated;
    small = s.valid.small;
    no_cache = s.valid.no_cache;
  };
  shown = s.shown;
  size = s.size;
  limit = s.limit;
}
