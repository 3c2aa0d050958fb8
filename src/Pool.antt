-- ===== src/Pool.antt =====
-- src/include/tools/epool.h: the pool of entries of a policy. An address counts policy entries, so
-- that `entries[i]` is `entries_begin + i`. A function faults (`none`) where the code fails an
-- assertion, reads outside `entries` or goes through a null pointer.
pub mod Init
pub mod Blocks
pub mod Valid
use fomo.Base.{
  ℕ, zero, suc, ◌+◌, ◌-◌, ◌/◌, ◌%◌, Bool, true, false, Option, none, some, List, [], ◌∷◌, ltb, leb,
  ◌&&◌, not, if◌then◌else◌, ◌>>=◌, remove, head?, is_nil, update, add32, sub32, u32_mod,
}
use fomo.Entry.{Entry, Memory}
use fomo.Queue

pub record Pool : Type 0 where
  pub entries_begin : ℕ
  pub free : List ℕ
  pub migrating : List ℕ
  pub nr_allocated : ℕ
  pub nr_migrating : ℕ
  pub nr_entries : ℕ
  pub starting_index : ℕ

-- `epool_create` at the address that `mem_alloc` returns; the lists come with `init`.
unfoldable pub create : ℕ → ℕ → Pool
create address nr = record {
  entries_begin = address;
  free = [];
  migrating = [];
  nr_allocated = 0;
  nr_migrating = 0;
  nr_entries = nr;
  starting_index = 0;
}

-- `entries[i]`; `none` is an access outside of the array.
abbrev pub entry_at : Pool → ℕ → Option ℕ
entry_at p i = if ltb i p.nr_entries then some (p.entries_begin + i) else none

-- `epool_at`
unfoldable pub at : Pool → ℕ → Option ℕ
at p index =
    let i = sub32 index p.starting_index in
    if leb p.nr_entries i then none else some (p.entries_begin + i)

-- The fields that `epool_init` gives an entry.
abbrev pub reset : Entry → Entry
reset e = record e { dirty = false; allocated = false; migrating = false }

-- The rounds of `epool_init` from index `i` on, `n` of them.
unfoldable pub init_from : ℕ → ℕ → Pool → Memory → Option (Pool × Memory)
init_from zero i p m = some (p, m)
init_from (suc n) i p m = elim (at p i) [
  | none ↦ none
  | some e ↦
      init_from n (i + 1) (record p { free = e ∷ p.free })
        (record { entry = update m.entry e (reset (m.entry e)); wb = Queue.head_init m.wb e })
]

-- `epool_init`: the new `starting_index` is set after the loop has used the old one.
unfoldable pub init : Pool → ℕ → Memory → Option (Pool × Memory)
init p start m = init_from p.nr_entries 0 (record p { free = []; migrating = [] }) m >>= λ r.
    let (p', m') = r in
    some (record p' { nr_allocated = 0; nr_migrating = 0; starting_index = start }, m')

-- `list_del_init(&e->pool_list)`: out of whichever list of the pool the entry is in.
abbrev pub unlink : Pool → ℕ → Pool
unlink p e = record p { free = remove e p.free; migrating = remove e p.migrating }

-- `alloc_this_entry`
unfoldable pub alloc_this_entry : Pool → Memory → ℕ → Pool × Memory
alloc_this_entry p m e =
    let q = unlink p e in
    (
      record q { nr_allocated = add32 q.nr_allocated 1 },
      record {
        entry = update m.entry e (record (m.entry e) { allocated = true });
        wb = Queue.head_init m.wb e;
      },
    )

-- `alloc_entry`: the first free entry, or null.
unfoldable pub alloc_entry : Pool → Memory → Option ℕ × Pool × Memory
alloc_entry p m = elim (head? p.free) [
  | none ↦ (none, p, m)
  | some e ↦ let (p', m') = alloc_this_entry (unlink p e) m e in (some e, p', m')
]

-- `alloc_particular_entry`
unfoldable pub alloc_particular_entry : Pool → Memory → ℕ → Option (ℕ × Pool × Memory)
alloc_particular_entry p m cblock = at p cblock >>= λ e.
    if (m.entry e).allocated
    then none
    else (let (p', m') = alloc_this_entry p m e in some (e, p', m'))

-- `epool_find`
unfoldable pub find : Pool → Memory → ℕ → Option (Option ℕ)
find p m cblock = at p cblock >>= λ e. some (if (m.entry e).allocated then some e else none)

-- `epool_empty`
unfoldable pub empty : Pool → Bool
empty p = is_nil p.free

-- `in_pool`; the null pointer is in no pool.
unfoldable pub in_pool : Pool → ℕ → Bool
in_pool p e = leb p.entries_begin e && ltb e (p.entries_begin + p.nr_entries)

-- `infer_cblock`: the distance of the first two entries is read from the array.
unfoldable pub infer_cblock : Pool → ℕ → Option ℕ
infer_cblock p e =
    if in_pool p e
    then (entry_at p 0 >>= λ e0.
        entry_at p 1 >>= λ e1. some (((e - e0) / (e1 - e0) + p.starting_index) % u32_mod))
    else none

-- `migrating_entry`
unfoldable pub migrating_entry : Pool → Memory → ℕ → Option (Pool × Memory)
migrating_entry p m e =
    if in_pool p e && (ltb 0 p.nr_allocated && (m.entry e).allocated)
    then some (
      record p { nr_migrating = add32 p.nr_migrating 1; migrating = e ∷ p.migrating },
      record m { entry = update m.entry e (record (m.entry e) { migrating = true }) },
    )
    else none

-- `migrated_entry`
unfoldable pub migrated_entry : Pool → Memory → ℕ → Option (Pool × Memory)
migrated_entry p m e =
    if in_pool p e && (ltb 0 p.nr_allocated && ((m.entry e).allocated && (m.entry e).migrating))
    then some (
      unlink (record p { nr_migrating = sub32 p.nr_migrating 1 }) e,
      record m { entry = update m.entry e (record (m.entry e) { migrating = false }) },
    )
    else none

-- The part of `free_entry` for an entry that is migrating.
abbrev pub stop_migrating : Pool → Bool → ℕ → Pool
stop_migrating p moving e =
    if moving then unlink (record p { nr_migrating = sub32 p.nr_migrating 1 }) e else p

-- `free_entry`: to the front of the free list.
unfoldable pub free_entry : Pool → Memory → ℕ → Option (Pool × Memory)
free_entry p m e =
    if in_pool p e && ltb 0 p.nr_allocated
    then (let q =
          stop_migrating (record p { nr_allocated = sub32 p.nr_allocated 1 }) (m.entry e).migrating
            e in
        some (
          record q { free = e ∷ q.free },
          record m {
            entry = update m.entry e (record (m.entry e) { allocated = false; migrating = false });
          },
        ))
    else none
