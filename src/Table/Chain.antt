-- ===== src/Table/Chain.antt =====
-- src/include/tools/hashtable.h: what `hash_lookup` finds in a chain, and what it leaves there.
use fomo.Base.{
  ℕ, ◌≡◌, refl, List, [], ◌∷◌, true, false, none, some, ◌==◌, mem, mem-cons, mem-remove, remove,
  ◌&&◌, ◌||◌, not, Option-cases, inl, inr, arith,
}
use fomo.Entry.{Memory}
use fomo.Table.{Table, bucket, chain_find, lookup, insert, take_out}

-- What a walk along a chain finds is in the chain and has the block.
pub chain_find-some :
    (m : Memory) (o : ℕ) (es : List ℕ) {e : ℕ}
    → chain_find m o es ≡ some e
    → (mem e es ≡ true) × ((m.entry e).oblock ≡ o)
unfolding chain_find mem
chain_find-some m o [] h = cc
chain_find-some m o (x ∷ es) {e} h = elim (Option-cases (chain_find m o es)) [
  | inl p ↦ ground arith
  | inr (y, p) ↦ ground (arith, chain_find-some m o es p)
]

pub chain_find-none :
    (m : Memory) (o : ℕ) (es : List ℕ) (e : ℕ)
    → chain_find m o es ≡ none
    → mem e es ≡ true
    → ((m.entry e).oblock == o) ≡ false
unfolding chain_find mem
chain_find-none m o [] e h i = cc
chain_find-none m o (x ∷ es) e h i = ground (arith, chain_find-none m o es e)

-- The move to the front keeps the members of every chain.
pub mem-lookup :
    (t : Table) (m : Memory) (o b e : ℕ) → mem e ((lookup t m o).1.table b) ≡ mem e (t.table b)
unfolding lookup
mem-lookup t m o b e = elim (Option-cases (chain_find m o (t.table (bucket t o)))) [
  | inl p ↦ ground arith
  | inr (y, p) ↦ ground (
    arith,
    chain_find-some m o (t.table (bucket t o)) p,
    mem-cons e y (remove y (t.table (bucket t o))),
    mem-remove e y (t.table (bucket t o)),
  )
]

-- Nothing but the order of a chain changes.
pub bucket-lookup : (t : Table) (m : Memory) (o a : ℕ) → bucket (lookup t m o).1 a ≡ bucket t a
unfolding lookup
bucket-lookup t m o a = ground arith

-- What is found, in terms of the chains.
pub lookup-some :
    (t : Table) (m : Memory) (o : ℕ) {e : ℕ}
    → (lookup t m o).0 ≡ some e
    → (mem e (t.table (bucket t o)) ≡ true) × ((m.entry e).oblock ≡ o)
unfolding lookup
lookup-some t m o {e} h = elim (Option-cases (chain_find m o (t.table (bucket t o)))) [
  | inl p ↦ ground arith
  | inr (y, p) ↦ ground (arith, chain_find-some m o (t.table (bucket t o)) p)
]

pub lookup-none :
    (t : Table) (m : Memory) (o e : ℕ)
    → (lookup t m o).0 ≡ none
    → mem e (t.table (bucket t o)) ≡ true
    → ((m.entry e).oblock == o) ≡ false
unfolding lookup
lookup-none t m o e h i = ground (arith, chain_find-none m o (t.table (bucket t o)) e)

pub mem-insert :
    (t : Table) (m : Memory) (b a e : ℕ)
    → mem a ((insert t m e).table b)
      ≡ (((bucket t (m.entry e).oblock == b) && (a == e)) || mem a (t.table b))
unfolding insert mem
mem-insert t m b a e = ground (arith, mem-cons a e (t.table b))

pub mem-take_out :
    (t : Table) (b a e : ℕ) → mem a ((take_out t e).table b) ≡ (not (a == e) && mem a (t.table b))
unfolding take_out
mem-take_out t b a e = mem-remove a e (t.table b)

pub bucket-take_out : (t : Table) (e a : ℕ) → bucket (take_out t e) a ≡ bucket t a
unfolding take_out
bucket-take_out t e a = refl

pub bucket-insert : (t : Table) (m : Memory) (e a : ℕ) → bucket (insert t m e) a ≡ bucket t a
unfolding insert
bucket-insert t m e a = refl
