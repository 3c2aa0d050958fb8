-- ===== src/Larc/Victim.antt =====
-- src/algs/larc/larc_policy.c: the answers of `larc_next_victim_api`.
use fomo.Base.{
  ℕ, ◌+◌, length, is_some, ◌≡◌, refl, ap, sym, subst, ◌∙◌, Bool, true, false, Option, none, some,
  ltb, if◌then◌else◌, arith, Bool-cases, inl, inr,
}
use fomo.Queue
use fomo.Queue.Order.{peek-first}
use fomo.Nucleus.{Operation, lookup, cache_is_full}
use fomo.Nucleus.Valid.{live, oblock_of, in_cache_pool, in_meta_pool, lookup-live}
use fomo.Larc.{Larc, q_list, g_list, transaction_init, transaction_set, transaction_is_legal}
use fomo.Larc.Api.{next_victim}
use fomo.Larc.Valid.{IsValid}
use fomo.Larc.Commit.{
  Known, find_block, looked, set-cached, set-ghost, set-new, set-filter, hit_transaction,
  ghost_transaction, new_transaction, filter_transaction,
}
use fomo.Larc.Map.{outcome, outcome_at}

-- What the choice of a victim answers where an access would return the operation: it names a new
-- block only if the block is known already.
abbrev pub choice : Operation → Bool → Operation
choice Operation.hit known = Operation.filter
choice Operation.filter known = Operation.filter
choice Operation.new known = if known then Operation.new else Operation.filter
choice Operation.replace known = Operation.replace
choice Operation.fail known = Operation.fail

-- The victim: the first entry of the cache's queue where one is replaced.
abbrev pub victim_at : Larc → Operation → Option ℕ
victim_at l Operation.replace = Queue.peek l.queues q_list
victim_at l Operation.hit = none
victim_at l Operation.filter = none
victim_at l Operation.new = none
victim_at l Operation.fail = none

module _ (l : Larc) (o : ℕ) where
  -- The choice for an access that would return `op`.
  Chooses : Operation → Bool → Type 0
  Chooses op known = next_victim l o ≡ some (choice op known, victim_at l op, looked l o)

  chosen_hit :
      (size : ℕ)
      → transaction_set l (transaction_init l o) ≡ some (looked l o, hit_transaction o size)
      → Chooses Operation.hit true
  unfolding next_victim transaction_is_legal Chooses
  chosen_hit size set = rw set refl

  chosen_new :
      (size : ℕ)
      → transaction_set l (transaction_init l o) ≡ some (looked l o, new_transaction o size)
      → Chooses Operation.new false
  unfolding next_victim transaction_is_legal Chooses
  chosen_new size set = rw set refl

  chosen_filter :
      (size : ℕ) (over : Bool)
      → transaction_set l (transaction_init l o) ≡ some (looked l o, filter_transaction o size over)
      → Chooses Operation.filter false
  unfolding next_victim transaction_is_legal Chooses
  chosen_filter size over set = rw set refl

  chosen_ghost :
      (size : ℕ)
      → transaction_set l (transaction_init l o) ≡ some (looked l o, ghost_transaction o size false)
      → Chooses Operation.new true
  unfolding next_victim transaction_is_legal Chooses
  chosen_ghost size set = rw set refl

  chosen_replace :
      (size e : ℕ)
      → Queue.peek l.queues q_list ≡ some e
      → ltb 0 (l.queues.len q_list) ≡ true
      → transaction_set l (transaction_init l o) ≡ some (looked l o, ghost_transaction o size true)
      → Chooses Operation.replace true
  unfolding next_victim transaction_is_legal Chooses
  chosen_replace size e first there set = rw (set, there, first) refl

  chosen_fail :
      (size : ℕ)
      → ltb 0 (l.queues.len q_list) ≡ false
      → transaction_set l (transaction_init l o) ≡ some (looked l o, ghost_transaction o size true)
      → Chooses Operation.fail true
  unfolding next_victim transaction_is_legal Chooses
  chosen_fail size gone set = rw (set, gone) refl

  module _ (v : IsValid l) where
    chosen-new_block :
        (lookup l.nucleus o).0 ≡ none
        → Chooses (if cache_is_full l.nucleus then Operation.filter else Operation.new) false
    chosen-new_block missed = elim (Bool-cases (cache_is_full l.nucleus)) [
      | inl full ↦
          let (size, set, s) = set-filter l o v missed full in
          rw full (chosen_filter size (ltb size (length (l.queues.items g_list) + 1)) set)
      | inr room ↦ let (size, set, s) = set-new l o v missed room in rw room (chosen_new size set)
    ]

    chosen-ghost_block :
        (e : ℕ)
        → live l.nucleus e ≡ true
        → oblock_of l.nucleus e ≡ o
        → in_cache_pool l.nucleus e ≡ false
        → in_meta_pool l.nucleus e ≡ true
        → Chooses
            (if cache_is_full l.nucleus
              then (if ltb 0 (l.queues.len q_list) then Operation.replace else Operation.fail)
              else Operation.new)
            true
    chosen-ghost_block e on block outside inside =
        let (size, set, s) = set-ghost l o v e on block outside inside in
        elim (Bool-cases (cache_is_full l.nucleus)) [
          | inr room ↦ rw room (
              chosen_ghost size
                (set ∙ ap (λ b. some (looked l o, ghost_transaction o size b)) room))
          | inl full ↦
              let set' = set ∙ ap (λ b. some (looked l o, ghost_transaction o size b)) full in
              elim (Bool-cases (ltb 0 (l.queues.len q_list))) [
                | inl there ↦
                    let (a, first, _) =
                      peek-first l.queues q_list (ground (arith, v.placed.cached.len_eq)) in
                    rw (full, there) (chosen_replace size a first there set')
                | inr gone ↦ rw (full, gone) (chosen_fail size gone set')
              ]
        ]

    chosen-Known : Known l o → Chooses (outcome l o) (is_some (lookup l.nucleus o).0)
    chosen-Known (Known.in_q e on block inside) =
        let found = lookup-live l.nucleus o e v.placed.nucleus on block in
        let (size, set, s) = set-cached l o v e on block inside in
        subst (λ e?. Chooses (outcome_at l e?) (is_some e?)) (sym found)
          (rw inside (chosen_hit size set))
    chosen-Known (Known.in_g e on block outside inside) =
        let found = lookup-live l.nucleus o e v.placed.nucleus on block in
        subst (λ e?. Chooses (outcome_at l e?) (is_some e?)) (sym found)
          (rw outside (chosen-ghost_block e on block outside inside))
    chosen-Known (Known.nowhere new missed) =
        subst (λ e?. Chooses (outcome_at l e?) (is_some e?)) (sym missed) (chosen-new_block missed)

    -- On a valid LARC the choice of a victim succeeds and changes no more than a lookup does: it
    -- fails or replaces where an access would, and its victim is then the first entry of the
    -- cache's queue; it answers new where an access would only for a known block, and filtered for
    -- the rest.
    pub next_victim-outcome :
        next_victim l o
        ≡ some (
          choice (outcome l o) (is_some (lookup l.nucleus o).0),
          victim_at l (outcome l o),
          looked l o,
        )
    unfolding Chooses
    next_victim-outcome = chosen-Known (find_block l o v.placed)
