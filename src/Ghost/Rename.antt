-- ===== src/Ghost/Rename.antt =====
-- An entry of a valid miss history takes another block, as `fomo_remap` makes it do.
use fomo.Base.{
  ℕ, ap₂, map_agree, ◌∙◌, ◌≡◌, refl, [], ◌∷◌, List, true, false, not, ◌&&◌, ◌||◌, ◌==◌, mem, map,
  Distinct, if◌then◌else◌, mem-map, ==_refl, arith, subst, sym,
}
use fomo.Entry.{rename_entry}
use fomo.Table
use fomo.Table.{bucket}
use fomo.Table.Chain.{mem-take_out, mem-insert, bucket-take_out, bucket-insert}
use fomo.Pool
use fomo.Nucleus
use fomo.Ghost.{Ghost, entries, oblock_of, history}
use fomo.Ghost.Valid.{IsValid, Shows, IsEntry}

-- The list with the block `new` in the place of `old`.
abbrev pub in_place : ℕ → ℕ → ℕ → ℕ
in_place old new a = if a == old then new else a

abbrev pub replaced : ℕ → ℕ → List ℕ → List ℕ
replaced old new h = map (in_place old new) h

mem-replaced :
    (old new a : ℕ) (h : List ℕ)
    → mem a (replaced old new h) ≡ (((a == new) && mem old h) || (not (a == old) && mem a h))
unfolding mem
mem-replaced old new a [] = ground arith
mem-replaced old new a (x ∷ h) = ground (arith, mem-replaced old new a h)

replaced-Distinct :
    (old new : ℕ) (h : List ℕ) → Distinct h → mem new h ≡ false → Distinct (replaced old new h)
unfolding mem
replaced-Distinct old new [] d n = tt
replaced-Distinct old new (x ∷ h) d n =
    ground (arith, replaced-Distinct old new h d.1, mem-replaced old new (in_place old new x) h)

pub replaced_absent : (old new : ℕ) (h : List ℕ) → mem old h ≡ false → replaced old new h ≡ h
unfolding mem
replaced_absent old new [] n = refl
replaced_absent old new (x ∷ h) n = ground (arith, replaced_absent old new h)

-- Distinct names tell their elements apart.
names_apart :
    (f : ℕ → ℕ) (a b : ℕ) (xs : List ℕ)
    → Distinct (map f xs)
    → mem a xs ≡ true
    → mem b xs ≡ true
    → (a == b) ≡ (f a == f b)
unfolding mem
names_apart f a b [] d i j = cc
names_apart f a b (x ∷ xs) d i j =
    ground (arith, names_apart f a b xs d.1, mem-map f a xs, mem-map f b xs)

-- A name that changes for one element of distinct names changes in its place.
map-in_place :
    (f : ℕ → ℕ) (e new : ℕ) (xs : List ℕ)
    → ((a : ℕ) → mem a xs ≡ true → (a == e) ≡ (f a == f e))
    → map (λ a. if a == e then new else f a) xs ≡ replaced (f e) new (map f xs)
unfolding mem
map-in_place f e new [] apart = refl
map-in_place f e new (x ∷ xs) apart =
    ground (arith, apart x, ==_refl x, map-in_place f e new xs (λ a m. apart a (ground arith)))

-- The entry with its new block.
abbrev pub renamed : Ghost → ℕ → ℕ → Ghost
renamed g e new = record g { nucleus = Nucleus.rehash g.nucleus e new }

module _ (g : Ghost) (e new : ℕ) (v : IsValid g) (i : mem e (entries g) ≡ true)
    (fresh : mem new (history g) ≡ false) where
  oblock_of-renamed :
      (a : ℕ) → oblock_of (renamed g e new) a ≡ (if a == e then new else oblock_of g a)
  unfolding Nucleus.rehash rename_entry
  oblock_of-renamed a = ground arith

  bucket-renamed : (a : ℕ) → bucket (renamed g e new).nucleus.ht a ≡ bucket g.nucleus.ht a
  unfolding Nucleus.rehash
  bucket-renamed a =
      bucket-insert (Table.take_out g.nucleus.ht e) (rename_entry g.nucleus.mem e new) e a
      ∙ bucket-take_out g.nucleus.ht e a

  mem-renamed :
      (b a : ℕ)
      → mem a ((renamed g e new).nucleus.ht.table b) ≡ (
          ((bucket g.nucleus.ht new == b) && (a == e))
          || (not (a == e) && mem a (g.nucleus.ht.table b)))
  unfolding Nucleus.rehash rename_entry
  mem-renamed b a = ground (
    arith,
    mem-insert (Table.take_out g.nucleus.ht e) (rename_entry g.nucleus.mem e new) b a e,
    mem-take_out g.nucleus.ht b a e,
    bucket-take_out g.nucleus.ht e new,
  )

  chained-renamed :
      (b a : ℕ)
      → mem a ((renamed g e new).nucleus.ht.table b) ≡ (
          mem a (entries g)
          && (bucket (renamed g e new).nucleus.ht (oblock_of (renamed g e new) a) == b))
  chained-renamed b a = ground (
    arith,
    i,
    v.chained b a,
    mem-renamed b a,
    bucket-renamed (oblock_of (renamed g e new) a),
    oblock_of-renamed a,
  )

  history-renamed : history (renamed g e new) ≡ replaced (oblock_of g e) new (history g)
  history-renamed =
      map_agree (oblock_of (renamed g e new)) (λ a. if a == e then new else oblock_of g a)
        (entries g) (λ a _. oblock_of-renamed a)
      ∙ map-in_place (oblock_of g) e new (entries g)
          (λ a m. names_apart (oblock_of g) a e (entries g) v.names m i)

  still-renamed :
      (a : ℕ)
      → Pool.in_pool g.nucleus.meta_pool a ≡ true
      → ((renamed g e new).nucleus.mem.entry a).migrating ≡ false
  unfolding Nucleus.rehash rename_entry
  still-renamed a p = ground (arith, v.still a p, v.still e (v.pooled e i))

  renamed-IsValid : IsValid (renamed g e new)
  unfolding Nucleus.rehash
  renamed-IsValid = record {
    queue = v.queue;
    lone = v.lone;
    names =
        subst Distinct (sym history-renamed)
          (replaced-Distinct (oblock_of g e) new (history g) v.names fresh);
    chained = chained-renamed;
    free_iff = v.free_iff;
    pooled = v.pooled;
    still = still-renamed;
    free_distinct = v.free_distinct;
    count = v.count;
    allocated = v.allocated;
    small = v.small;
    no_cache = v.no_cache;
  }

-- If the entry of a block that a valid history shows takes a block that it does not show, the
-- history shows the new block in the place of the old one.
pub rename-Shows :
    {cap : ℕ} {h : List ℕ} (g : Ghost) (e old new : ℕ)
    → Shows cap g h
    → IsEntry g e old
    → mem new h ≡ false
    → Shows cap (renamed g e new) (replaced old new h)
rename-Shows {cap} {h} g e old new s i absent =
    let fresh : mem new (history g) ≡ false = rw s.shown absent in
    record {
      valid = renamed-IsValid g e new s.valid i.inside fresh;
      shown =
          history-renamed g e new s.valid i.inside fresh
          ∙ ap₂ (λ (a : ℕ) (l : List ℕ). replaced a new l) i.named s.shown;
      size = unfold Nucleus.rehash in s.size;
      limit = unfold Nucleus.rehash in s.limit;
    }
