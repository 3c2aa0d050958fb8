-- ===== src/Ghost/Find.antt =====
-- `hash_lookup` in a miss history: what it finds, and the move to the front of the chain.
use fomo.Base.{
  is_some, Bool-cases, ℕ, ◌≡◌, refl, List, true, false, none, some, mem, mem-map, mem-map_inv,
  ==_refl, Option-cases, inl, inr, arith,
}
use fomo.Table.Chain.{mem-lookup, bucket-lookup, lookup-some, lookup-none}
use fomo.Nucleus
use fomo.Table.{bucket}
use fomo.Ghost.{Ghost, entries, oblock_of, history, find}
use fomo.Ghost.Valid.{IsValid, Shows, IsEntry}

find-IsValid : (g : Ghost) (o : ℕ) → IsValid g → IsValid (find g o).1
unfolding find Nucleus.lookup
find-IsValid g o v = record {
  queue = v.queue;
  lone = v.lone;
  names = v.names;
  chained = λ b e.
      ground (arith, v.chained b e, mem-lookup ht m o b e, bucket-lookup ht m o (oblock_of g e));
  free_iff = v.free_iff;
  pooled = v.pooled;
  still = v.still;
  free_distinct = v.free_distinct;
  count = v.count;
  allocated = v.allocated;
  small = v.small;
  no_cache = v.no_cache;
}
  where
    open g.nucleus use {ht, mem as m}

-- The lookup keeps what the history shows.
pub find-Shows :
    (g : Ghost) (o : ℕ) {cap : ℕ} {h : List ℕ} → Shows cap g h → Shows cap (find g o).1 h
unfolding find Nucleus.lookup
find-Shows g o s = record {
  valid = unfold find in find-IsValid g o s.valid;
  shown = s.shown;
  size = s.size;
  limit = s.limit;
}

-- What the lookup finds is the entry for the block.
pub find-IsEntry :
    (g : Ghost) (o : ℕ) {e : ℕ} → IsValid g → (find g o).0 ≡ some e → IsEntry (find g o).1 e o
unfolding find Nucleus.lookup
find-IsEntry g o {e} v h = record {
  inside = ground (arith, found, v.chained (bucket g.nucleus.ht o) e);
  named = found.1;
}
  where
    found : (mem e (g.nucleus.ht.table (bucket g.nucleus.ht o)) ≡ true) × (oblock_of g e ≡ o)
    found = lookup-some g.nucleus.ht g.nucleus.mem o h

-- A block that a valid history shows is found.
pub find_present :
    (g : Ghost) (o : ℕ) → IsValid g → mem o (history g) ≡ true → (e : ℕ) × ((find g o).0 ≡ some e)
unfolding find Nucleus.lookup
find_present g o v m = elim (Option-cases (find g o).0) [
  | inr (e, h) ↦ (e, h)
  | inl h ↦
      let (e, i, n) = mem-map_inv (oblock_of g) o (entries g) m in
      absurd (
        ground (
          arith,
          lookup-none g.nucleus.ht g.nucleus.mem o e h,
          v.chained (bucket g.nucleus.ht o) e,
          ==_refl (bucket g.nucleus.ht o),
        ))
]

-- The lookup leaves the shown blocks as they are.
pub history-find : (g : Ghost) (o : ℕ) → history (find g o).1 ≡ history g
unfolding find Nucleus.lookup
history-find g o = refl

-- A block that a valid history does not show is not found.
pub find_absent : (g : Ghost) (o : ℕ) → IsValid g → mem o (history g) ≡ false → (find g o).0 ≡ none
find_absent g o v m = elim (Option-cases (find g o).0) [
  | inl h ↦ h
  | inr (e, h) ↦
      let i = find-IsEntry g o v h in
      let g' : Ghost = (find g o).1 in
      let shown : mem (oblock_of g' e) (history g') ≡ true =
        mem-map (oblock_of g') e (entries g') i.inside in
      absurd (cc (shown, i.named, history-find g o, m))
]

-- A block is found exactly if the history shows it.
pub is_some-find :
    {cap : ℕ} {h : List ℕ} (g : Ghost) (o : ℕ) → Shows cap g h → is_some (find g o).0 ≡ mem o h
is_some-find {h = h} g o s = elim (Bool-cases (mem o h)) [
  | inl m ↦ let (e, found) = find_present g o s.valid (rw s.shown m) in ground (arith, found)
  | inr n ↦ ground (arith, find_absent g o s.valid (rw s.shown n))
]
