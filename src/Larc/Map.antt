-- ===== src/Larc/Map.antt =====
-- src/algs/larc/larc_policy.c: `larc_map_api` and `larc_next_victim_api` on a valid LARC.
use fomo.Base.{
  ℕ, ◌+◌, ◌≡◌, refl, ap, sym, subst, ◌∙◌, Bool, true, false, Option, none, some, ltb, if◌then◌else◌,
  inl, inr, arith, length, ◌==◌,
}
use fomo.Entry.Stats.{inc_ios}
use fomo.Pool.{in_pool}
use fomo.Nucleus.{Result, Operation, note_write, lookup, cache_is_full}
use fomo.Nucleus.Valid.{in_cache_pool, in_meta_pool, live, oblock_of, lookup-live, restat-IsValid}
use fomo.Nucleus.Touched.{touched, touched-IsValid, is_cached-touched, note_write-eq, lookup_again}
use fomo.Nucleus.Cached.{is_cached, is_cached-live, is_cached-eq}
use fomo.Larc.{
  Larc, Transaction, q_list, g_list, transaction_init, transaction_set, transaction_is_legal,
}
use fomo.Larc.Access.{transaction_commit, with_stats, map}
use fomo.Larc.Valid.{IsValid}
use fomo.Larc.Commit.{
  Known, find_block, looked, looked-IsValid, set-cached, set-ghost, set-new, set-filter,
  hit_transaction, ghost_transaction, new_transaction, filter_transaction,
}
use fomo.Larc.Steps.{Done, commit_hit, commit_new, commit_filter, commit_ghost, commit_replace}

-- LARC after an access and its counts.
marked : Larc → ℕ → Bool → Larc
marked l e write = record l { nucleus = touched l.nucleus e write }

marked-IsValid : (l : Larc) (e : ℕ) (write : Bool) → IsValid l → IsValid (marked l e write)
unfolding marked touched in_pool
marked-IsValid l e write v = record {
  placed = record {
    nucleus = touched-IsValid l.nucleus e write v.placed.nucleus;
    cached = v.placed.cached;
    ghosts = v.placed.ghosts;
    homes = λ a. ground (arith, v.placed.homes a);
    still = λ a i. ground (arith, v.placed.still a i);
    sized = v.placed.sized;
    room = v.placed.room;
    two = v.placed.two;
  };
  short = v.short;
}

counted : Larc → Larc
counted l = with_stats l inc_ios

counted-IsValid : (l : Larc) → IsValid l → IsValid (counted l)
unfolding counted
counted-IsValid l v = record {
  placed = record {
    nucleus = restat-IsValid l.nucleus (inc_ios l.nucleus.stats) v.placed.nucleus;
    cached = v.placed.cached;
    ghosts = v.placed.ghosts;
    homes = v.placed.homes;
    still = v.placed.still;
    sized = v.placed.sized;
    room = v.placed.room;
    two = v.placed.two;
  };
  short = v.short;
}

noted-IsValid :
    (l : Larc) (o : ℕ) (write : Bool)
    → IsValid l
    → IsValid (record l { nucleus = note_write (counted l).nucleus o write })
      × (is_cached (note_write (counted l).nucleus o write) o ≡ is_cached l.nucleus o)
unfolding counted marked lookup in_pool
noted-IsValid l o write v =
    let w = looked-IsValid (counted l) o (counted-IsValid l v) in
    let same : is_cached (looked (counted l) o).nucleus o ≡ is_cached l.nucleus o =
      is_cached-eq l.nucleus (looked (counted l) o).nucleus o v.placed.nucleus w.placed.nucleus
        (λ a. refl) (λ a. refl) (λ a. refl) in
    elim (note_write-eq (counted l).nucleus o write) [
      | inl e ↦ (
        subst (λ n. IsValid (record l { nucleus = n })) (sym e) w,
        ap (λ n. is_cached n o) e ∙ same,
      )
      | inr (a, e) ↦ (
        subst (λ n. IsValid (record l { nucleus = n })) (sym e)
            (marked-IsValid (looked (counted l) o) a write w),
        ap (λ n. is_cached n o) e
            ∙ is_cached-touched (looked (counted l) o).nucleus a o write w.placed.nucleus
            ∙ same,
      )
    ]

-- What an access returns, by what the lookup finds.
abbrev pub outcome_at : Larc → Option ℕ → Operation
outcome_at l none = if cache_is_full l.nucleus then Operation.filter else Operation.new
outcome_at l (some e) =
    if in_cache_pool l.nucleus e
    then Operation.hit
    else (if cache_is_full l.nucleus
        then (if ltb 0 (l.queues.len q_list) then Operation.replace else Operation.fail)
        else Operation.new)

abbrev pub outcome : Larc → ℕ → Operation
outcome l o = outcome_at l (lookup l.nucleus o).0

-- Whether the block is in the cache after it.
abbrev pub comes_in : Operation → Bool
comes_in Operation.hit = true
comes_in Operation.filter = false
comes_in Operation.new = true
comes_in Operation.replace = true
comes_in Operation.fail = false

module _ (l : Larc) (o : ℕ) (write : Bool) (result : Result) where
  committed :
      (lt : Transaction) (op : Operation)
      → transaction_set (looked l o) (transaction_init (looked l o) o)
        ≡ some (looked (looked l o) o, lt)
      → transaction_is_legal (looked (looked l o) o) lt ≡ true
      → Done (transaction_commit (looked (looked l o) o) lt result) o op (comes_in op)
      → Done (map l o write result) o op (comes_in op)
  unfolding map counted
  committed lt op set legal d =
      let (valid, same) = noted-IsValid d.after o write d.valid in
      record {
        after = record d.after { nucleus = note_write (counted d.after).nucleus o write };
        result = d.result;
        returns = rw (set, legal, d.returns) refl;
        valid = valid;
        answer = d.answer;
        holds = same ∙ d.holds;
      }

  refused :
      (lt : Transaction)
      → IsValid l
      → transaction_set (looked l o) (transaction_init (looked l o) o)
        ≡ some (looked (looked l o) o, lt)
      → transaction_is_legal (looked (looked l o) o) lt ≡ false
      → is_cached l.nucleus o ≡ false
      → Done (map l o write result) o Operation.fail false
  unfolding map lookup in_pool
  refused lt v set legal out =
      let w = looked-IsValid (looked l o) o (looked-IsValid l o v) in
      record {
        after = looked (looked l o) o;
        result = record result { op = Operation.fail };
        returns = rw (set, legal) refl;
        valid = w;
        answer = refl;
        holds =
            is_cached-eq l.nucleus (looked (looked l o) o).nucleus o v.placed.nucleus
              w.placed.nucleus (λ a. refl) (λ a. refl) (λ a. refl)
            ∙ out;
      }

  abbrev Answers : Operation → Type 0
  Answers op = Done (map l o write result) o op (comes_in op)

  module _ (v : IsValid l) where
    access_cached :
        (e : ℕ)
        → live l.nucleus e ≡ true
        → oblock_of l.nucleus e ≡ o
        → in_cache_pool l.nucleus e ≡ true
        → Answers Operation.hit
    unfolding lookup transaction_is_legal in_pool
    access_cached e on block inside =
        let l1 = looked l o in
        let v1 = looked-IsValid l o v in
        let (size, set, s) = set-cached l1 o v1 e on block inside in
        committed (hit_transaction o size) Operation.hit set refl
          (commit_hit (looked l1 o) o size result (looked-IsValid l1 o v1) s e on block inside)

    access_new :
        ((e : ℕ) → live l.nucleus e ≡ true → (oblock_of l.nucleus e == o) ≡ false)
        → (lookup l.nucleus o).0 ≡ none
        → (full : Bool) → cache_is_full l.nucleus ≡ full
        → Answers (if full then Operation.filter else Operation.new)
    unfolding lookup transaction_is_legal in_pool cache_is_full
    access_new new missed full is =
        let l1 = looked l o in
        let v1 = looked-IsValid l o v in
        let again : (lookup l1.nucleus o).0 ≡ none =
          lookup_again l.nucleus o v.placed.nucleus missed in
        elim full
            as (λ b.
              cache_is_full l.nucleus ≡ b
              → Answers (if b then Operation.filter else Operation.new)) [
                | true ↦ λ full_up.
                    (let (size, set, s) = set-filter l1 o v1 again full_up in
                      committed
                        (filter_transaction o size (ltb size (length (l.queues.items g_list) + 1)))
                        Operation.filter set refl
                        (commit_filter (looked l1 o) o size result (looked-IsValid l1 o v1) s new))
                | false ↦ λ room.
                    (let (size, set, s) = set-new l1 o v1 again room in
                      committed (new_transaction o size) Operation.new set refl (
                        commit_new (looked l1 o) o size result (looked-IsValid l1 o v1) s new room))
              ]
          is

    access_ghost :
        (e : ℕ)
        → live l.nucleus e ≡ true
        → oblock_of l.nucleus e ≡ o
        → in_cache_pool l.nucleus e ≡ false
        → in_meta_pool l.nucleus e ≡ true
        → (full some_in : Bool) → cache_is_full l.nucleus ≡ full
        → ltb 0 (l.queues.len q_list) ≡ some_in
        → Answers (
            if full then (if some_in then Operation.replace else Operation.fail) else Operation.new)
    unfolding lookup transaction_is_legal in_pool cache_is_full
    access_ghost e on block outside inside full some_in is_full has_some =
        let l1 = looked l o in
        let v1 = looked-IsValid l o v in
        let v2 = looked-IsValid l1 o v1 in
        let (size, set, s) = set-ghost l1 o v1 e on block outside inside in
        let decides = λ (b : Bool). ghost_transaction o size b in
        let set_to : (b : Bool)
            → cache_is_full l.nucleus ≡ b
            → transaction_set l1 (transaction_init l1 o) ≡ some (looked l1 o, decides b) =
          λ b p. set ∙ ap (λ c. some (looked l1 o, decides c)) p in
        elim full
            as (λ b.
              cache_is_full l.nucleus ≡ b
              → Answers (
                  if b
                  then (if some_in then Operation.replace else Operation.fail)
                  else Operation.new)) [
                    | false ↦ λ room.
                        committed (decides false) Operation.new (set_to false room) refl
                          (commit_ghost (looked l1 o) o size result v2 s e on block outside room)
                    | true ↦ λ full_up.
                        (elim some_in
                            as (λ b.
                              ltb 0 (l.queues.len q_list) ≡ b
                              → Answers (if b then Operation.replace else Operation.fail)) [
                                | true ↦ λ there.
                                    committed (decides true) Operation.replace (set_to true full_up)
                                      there
                                      (commit_replace (looked l1 o) o size result v2 s e on block
                                        outside (ground arith))
                                | false ↦ λ gone.
                                    refused (decides true) v (set_to true full_up) gone (
                                      is_cached-live l.nucleus o e v.placed.nucleus on block
                                      ∙ outside)
                              ]
                          has_some)
                  ]
          is_full

    outcome-Known : Known l o → Answers (outcome l o)
    outcome-Known (Known.in_q e on block inside) =
        let is : outcome l o ≡ Operation.hit =
          ap (outcome_at l) (lookup-live l.nucleus o e v.placed.nucleus on block)
          ∙ rw inside refl in
        subst Answers (sym is) (access_cached e on block inside)
    outcome-Known (Known.in_g e on block outside inside) =
        let full = cache_is_full l.nucleus in
        let some_in = ltb 0 (l.queues.len q_list) in
        let is : outcome l o ≡ (
            if full
            then (if some_in then Operation.replace else Operation.fail)
            else Operation.new) =
          ap (outcome_at l) (lookup-live l.nucleus o e v.placed.nucleus on block)
          ∙ rw outside refl in
        subst Answers (sym is) (access_ghost e on block outside inside full some_in refl refl)
    outcome-Known (Known.nowhere new missed) =
        let full = cache_is_full l.nucleus in
        let is : outcome l o ≡ (if full then Operation.filter else Operation.new) =
          ap (outcome_at l) missed in
        subst Answers (sym is) (access_new new missed full refl)

  -- On a valid LARC an access returns and leaves LARC valid, and its answer is told by where the
  -- block is: a hit in the cache; for a block that is not cached, new while there is room; in a
  -- full cache filtered for a new block, and for a ghost replace, or a failure if the queue of the
  -- cache is empty. Afterwards the block is in the cache unless the answer is filtered or failed.
  pub map-outcome : IsValid l → Done (map l o write result) o (outcome l o) (comes_in (outcome l o))
  map-outcome v = outcome-Known v (find_block l o v.placed)
