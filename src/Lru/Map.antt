-- ===== src/Lru/Map.antt =====
-- src/algs/lru/lru_policy.c: `lru_map_api` and `lru_next_victim_api` on a valid LRU.
use fomo.Base.{
  ℕ, ◌≡◌, refl, ap, sym, subst, Bool, true, false, Option, none, some, is_some, ltb, ◌==◌, ◌<◌,
  if◌then◌else◌, Option-cases, inl, inr, arith,
}
use fomo.Entry.Stats.{Stats, inc_ios, inc_hits, inc_misses}
use fomo.Pool.{in_pool}
use fomo.Nucleus.{Result, Operation, note_write, lookup, cache_is_full}
use fomo.Nucleus.Valid.{live, oblock_of, lookup-live, lookup_found, lookup_missed}
use fomo.Nucleus.Touched.{touched, touched-IsValid, note_write-eq, lookup_again}
use fomo.Lru.{
  Lru, Transaction, lru_q, counting, transaction_init, transaction_set, transaction_is_legal,
  transaction_commit, make_room, map,
}
use fomo.Lru.Valid.{IsValid, looked, looked-IsValid, counted-IsValid}
use fomo.Lru.Parts.{Holds, evict_cached, stock-Holds, renew-Holds}

-- What an access returns, by whether the block is known.
abbrev pub outcome_at : Lru → Option ℕ → Operation
outcome_at l (some e) = Operation.hit
outcome_at l none =
    if cache_is_full l.nucleus
    then (if ltb 0 (l.queues.len lru_q) then Operation.replace else Operation.fail)
    else Operation.new

abbrev pub outcome : Lru → ℕ → Operation
outcome l o = outcome_at l (lookup l.nucleus o).0

-- An access that returns the operation, leaves LRU valid, and finds the block afterwards or not.
pub record Done (r : Option (Lru × Result)) (o : ℕ) (op : Operation) (known : Bool) : Type 0 where
  pub after : Lru
  pub result : Result
  pub returns : r ≡ some (after, result)
  pub valid : IsValid after
  pub answer : result.op ≡ op
  pub holds : is_some (lookup after.nucleus o).0 ≡ known

-- A mark on an entry leaves LRU valid and the block known.
marked-Holds :
    (l : Lru) (o e : ℕ) (write : Bool)
    → Holds l o
    → Holds (record l { nucleus = touched l.nucleus e write }) o
unfolding touched in_pool
marked-Holds l o e write h = record {
  valid = record {
    nucleus = touched-IsValid l.nucleus e write h.valid.nucleus;
    cached = h.valid.cached;
    homes = λ a. ground (arith, h.valid.homes a);
    no_meta = h.valid.no_meta;
    two = h.valid.two;
  };
  holder = h.holder;
  holder_live = ground (arith, h.holder_live);
  holder_block = ground (arith, h.holder_block);
}

looked-Holds : (l : Lru) (o : ℕ) → Holds l o → Holds (looked l o) o
unfolding lookup in_pool
looked-Holds l o h = record {
  valid = looked-IsValid l o h.valid;
  holder = h.holder;
  holder_live = h.holder_live;
  holder_block = h.holder_block;
}

counted-Holds :
    (l : Lru) (o : ℕ) (inc : Stats → Stats)
    → Holds l o
    → Holds (record l { nucleus = counting l.nucleus inc }) o
counted-Holds l o inc h = record {
  valid = counted-IsValid l (inc l.nucleus.stats) h.valid;
  holder = h.holder;
  holder_live = h.holder_live;
  holder_block = h.holder_block;
}

-- The dirty work.
noted-Holds :
    (l : Lru) (o : ℕ) (write : Bool)
    → Holds l o
    → Holds (record l { nucleus = note_write l.nucleus o write }) o
noted-Holds l o write h = elim (note_write-eq l.nucleus o write) [
  | inl e ↦ subst (λ n. Holds (record l { nucleus = n }) o) (sym e) (looked-Holds l o h)
  | inr (a, e) ↦
      subst (λ n. Holds (record l { nucleus = n }) o) (sym e)
        (marked-Holds (looked l o) o a write (looked-Holds l o h))
]

found : (l : Lru) (o : ℕ) → Holds l o → is_some (lookup l.nucleus o).0 ≡ true
found l o h =
    ap (λ e?. is_some e?)
      (lookup-live l.nucleus o h.holder h.valid.nucleus h.holder_live h.holder_block)

module _ (l : Lru) (o : ℕ) (write : Bool) (result : Result) where
  committed :
      (lt : Transaction) (op : Operation) (r : Result) (l' : Lru)
      → transaction_set (looked l o) (transaction_init o) ≡ (looked (looked l o) o, lt)
      → transaction_is_legal (looked (looked l o) o) lt ≡ true
      → transaction_commit (looked (looked l o) o) lt result ≡ some (l', r)
      → Holds l' o
      → r.op ≡ op
      → Done (map l o write result) o op true
  unfolding map
  committed lt op r l' set legal commits h answer =
      let h' =
        noted-Holds (record l' { nucleus = counting l'.nucleus inc_ios }) o write
          (counted-Holds l' o inc_ios h) in
      record {
        after = record l' { nucleus = note_write (counting l'.nucleus inc_ios) o write };
        result = r;
        returns = rw (set, legal, commits) refl;
        valid = h'.valid;
        answer = answer;
        holds =
            found (record l' { nucleus = note_write (counting l'.nucleus inc_ios) o write }) o h';
      }

  refused :
      (lt : Transaction)
      → transaction_set (looked l o) (transaction_init o) ≡ (looked (looked l o) o, lt)
      → transaction_is_legal (looked (looked l o) o) lt ≡ false
      → map l o write result ≡ some (looked (looked l o) o, record result { op = Operation.fail })
  unfolding map
  refused lt set legal = rw (set, legal) refl

abbrev pub hit_transaction : ℕ → Transaction
hit_transaction o = record { oblock = o; evict = false; hit = true }

abbrev pub miss_transaction : ℕ → Bool → Transaction
miss_transaction o full = record { oblock = o; evict = full; hit = false }

module _ (l : Lru) (o : ℕ) (v : IsValid l) where
  pub set-known :
      (e : ℕ)
      → (lookup l.nucleus o).0 ≡ some e
      → transaction_set l (transaction_init o) ≡ (looked l o, hit_transaction o)
  unfolding transaction_set transaction_init lookup
  set-known e known = rw known refl

  pub set-new :
      (full : Bool)
      → (lookup l.nucleus o).0 ≡ none
      → cache_is_full l.nucleus ≡ full
      → transaction_set l (transaction_init o) ≡ (looked l o, miss_transaction o full)
  unfolding transaction_set transaction_init lookup cache_is_full
  set-new full missed is = rw missed (ap (λ b. (looked l o, miss_transaction o b)) is)

  commit_hit :
      (e : ℕ) (result : Result)
      → live l.nucleus e ≡ true
      → oblock_of l.nucleus e ≡ o
      → (l' : Lru) × (r : Result) × (transaction_commit l (hit_transaction o) result ≡ some (l', r))
        × Holds l' o
        × (r.op ≡ Operation.hit)
  unfolding transaction_commit
  commit_hit e result on block =
      let (l', c, renewed, h) =
        renew-Holds l o e v on block (record result { op = Operation.hit }) in
      (
        record l' { nucleus = counting l'.nucleus inc_hits },
        record result { op = Operation.hit; cblock = c },
        rw renewed refl,
        counted-Holds l' o inc_hits h,
        refl,
      )

  module _ (result : Result)
      (new : (a : ℕ) → live l.nucleus a ≡ true → (oblock_of l.nucleus a == o) ≡ false) where
    commit_new :
        cache_is_full l.nucleus ≡ false
        → (l' : Lru) × (r : Result) × (transaction_commit l (miss_transaction o false) result
            ≡ some (l', r))
          × Holds l' o
          × (r.op ≡ Operation.new)
    unfolding transaction_commit make_room
    commit_new room =
        let (l', c, stocked, h) =
          stock-Holds l o v new (record result { op = Operation.new }) room in
        (
          record l' { nucleus = counting l'.nucleus inc_misses },
          record result { op = Operation.new; cblock = c },
          rw stocked refl,
          counted-Holds l' o inc_misses h,
          refl,
        )

    commit_replace :
        0 < l.queues.len lru_q
        → (l' : Lru) × (r : Result) × (transaction_commit l (miss_transaction o true) result
            ≡ some (l', r))
          × Holds l' o
          × (r.op ≡ Operation.replace)
    unfolding transaction_commit make_room
    commit_replace some_in =
        let (e, l1, evicted, first, on, r) =
          evict_cached l (record result { op = Operation.replace }) v some_in in
        let fresh : (a : ℕ) → live l1.nucleus a ≡ true → (oblock_of l1.nucleus a == o) ≡ false =
          λ a there. ground (arith, r.drops_live a, r.drops_oblock a, new a) in
        let victim : Result = record {
          op = Operation.replace;
          old_oblock = oblock_of l.nucleus e;
          cblock = result.cblock;
          dirty_eviction = (l.nucleus.mem.entry e).dirty;
        } in
        let (l', c, stocked, h) = stock-Holds l1 o r.valid fresh victim r.makes_room in
        (
          record l' { nucleus = counting l'.nucleus inc_misses },
          record victim { cblock = c },
          rw (evicted, stocked) refl,
          counted-Holds l' o inc_misses h,
          refl,
        )

-- Whether the block is known after an access that returns this.
abbrev pub comes_in : Operation → Bool
comes_in Operation.hit = true
comes_in Operation.filter = false
comes_in Operation.new = true
comes_in Operation.replace = true
comes_in Operation.fail = false

module _ (l : Lru) (o : ℕ) (write : Bool) (result : Result) (v : IsValid l) where
  abbrev Answers : Operation → Type 0
  Answers op = Done (map l o write result) o op (comes_in op)

  access_known : (e : ℕ) → (lookup l.nucleus o).0 ≡ some e → Answers Operation.hit
  unfolding lookup in_pool transaction_is_legal
  access_known e known =
      let (on, block) = lookup_found l.nucleus o v.nucleus known in
      let l1 = looked l o in
      let v1 = looked-IsValid l o v in
      let again : (lookup l1.nucleus o).0 ≡ some e =
        lookup-live l1.nucleus o e v1.nucleus on block in
      let (l', r, commits, h, answer) =
        commit_hit (looked l1 o) o (looked-IsValid l1 o v1) e result on block in
      committed l o write result (hit_transaction o) Operation.hit r l' (set-known l1 o v1 e again)
        refl commits h answer

  access_new :
      (full some_in : Bool)
      → (lookup l.nucleus o).0 ≡ none
      → cache_is_full l.nucleus ≡ full
      → ltb 0 (l.queues.len lru_q) ≡ some_in
      → Answers
          (if full then (if some_in then Operation.replace else Operation.fail) else Operation.new)
  unfolding lookup in_pool transaction_is_legal cache_is_full map
  access_new full some_in missed is_full has_some =
      let l1 = looked l o in
      let v1 = looked-IsValid l o v in
      let l2 = looked l1 o in
      let v2 = looked-IsValid l1 o v1 in
      let again : (lookup l1.nucleus o).0 ≡ none = lookup_again l.nucleus o v.nucleus missed in
      let new : (a : ℕ) → live l.nucleus a ≡ true → (oblock_of l.nucleus a == o) ≡ false =
        λ a on. lookup_missed l.nucleus o a v.nucleus missed on in
      let set = set-new l1 o v1 full again is_full in
      elim full
          as (λ b.
            cache_is_full l.nucleus ≡ b
            → transaction_set l1 (transaction_init o) ≡ (l2, miss_transaction o b)
            → Answers (
                if b
                then (if some_in then Operation.replace else Operation.fail)
                else Operation.new)) [
                  | false ↦ λ room set.
                      (let (l', r, commits, h, answer) = commit_new l2 o v2 result new room in
                        committed l o write result (miss_transaction o false) Operation.new r l' set
                          refl commits h answer)
                  | true ↦ λ full_up set.
                      (elim some_in
                          as (λ b.
                            ltb 0 (l.queues.len lru_q) ≡ b
                            → Answers (if b then Operation.replace else Operation.fail)) [
                              | true ↦ λ there.
                                  (let (l', r, commits, h, answer) =
                                      commit_replace l2 o v2 result new (ground arith) in
                                    committed l o write result (miss_transaction o true)
                                      Operation.replace r l' set there commits h answer)
                              | false ↦ λ gone. record {
                                after = l2;
                                result = record result { op = Operation.fail };
                                returns =
                                    refused l o write result (miss_transaction o true) set gone;
                                valid = v2;
                                answer = refl;
                                holds =
                                    ap (λ e?. is_some e?)
                                      (lookup_again l1.nucleus o v1.nucleus again);
                              }
                            ]
                        has_some)
                ]
        is_full set

  -- On a valid LRU an access returns and leaves LRU valid: a hit for a block that is known; else
  -- new while the cache has room, replace if it is full, and a failure if it is full and the queue
  -- is empty. Afterwards the block is known unless the access failed.
  pub lru_map-outcome : Answers (outcome l o)
  lru_map-outcome = elim (Option-cases (lookup l.nucleus o).0) [
    | inl missed ↦
        subst (λ e?. Answers (outcome_at l e?)) (sym missed)
          (access_new (cache_is_full l.nucleus) (ltb 0 (l.queues.len lru_q)) missed refl refl)
    | inr (e, known) ↦ subst (λ e?. Answers (outcome_at l e?)) (sym known) (access_known e known)
  ]
