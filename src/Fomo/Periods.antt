-- ===== src/Fomo/Periods.antt =====
-- src/fomo/fomo_policy.c: what the counts of a period mean, and when the state changes.
use fomo.Base.{
  ℕ, ◌+◌, ◌*◌, ◌%◌, ◌≤◌, ◌<◌, ◌≡◌, List, Bool, mem, not, ◌&&◌, ◌==◌, if◌then◌else◌, add32, u32_mod,
  arith, Bool-cases, inl, inr, ltb, leb,
}
use native.Mathlib.Nat.{mod-eq_of_lt, mod_self}
use fomo.Ghost.{Ghost}
use fomo.Nucleus.Policy.{Policy}
use fomo.Fomo.{Fomo, FomoState, Transaction}
use fomo.Fomo.Decide.{is_insert, count_hits, switch, end_period, set_filter, transaction_init}
use fomo.Fomo.Refine.{decision}

-- A hit, as a number.
abbrev pub one_if : Bool → ℕ
one_if b = if b then 1 else 0

-- An access is filtered exactly when FOMO goes on in the filter state and the block is neither in
-- the cache nor in the miss history.
pub filtered_iff :
    (P : Policy) (f : Fomo P) (h : List ℕ) (cached full : Bool) (o : ℕ)
    → (decision P f h cached full o).filter
      ≡ (not (is_insert (decision P f h cached full o).state) && (not cached && not (mem o h)))
unfolding decision set_filter end_period count_hits transaction_init
filtered_iff P f h cached full o = ground arith

-- The period has seen `a` hits of the cache and `b` of the miss history, in thousandths, and is
-- not over.
pub record Counted (P : Policy) (f : Fomo P) (a b : ℕ) : Type 0 where
  pub c_hits : f.c_hits ≡ 1000 * a
  pub mh_hits : f.mh_hits ≡ 1000 * b
  pub cache_bound : a ≤ f.counter
  pub history_bound : b ≤ f.counter
  pub running : f.counter < f.period_size
  pub small : 50 * f.period_size < u32_mod

module _ (P : Policy) (f : Fomo P) {a b : ℕ} (k : Counted P f a b) where
  no_wrap : add32 f.counter 1 ≡ f.counter + 1
  no_wrap = omega (arith, k.running, k.small)

  -- The period ends with its last access.
  period_end : (add32 f.counter 1 % f.period_size == 0) ≡ (f.counter + 1 == f.period_size)
  period_end = elim (Bool-cases (f.counter + 1 == f.period_size)) [
    | inl e ↦ ground (arith, no_wrap, k.running, mod_self f.period_size)
    | inr n ↦ ground (
      arith,
      no_wrap,
      k.running,
      mod-eq_of_lt {n = f.counter + 1} {m = f.period_size} (ground (arith, k.running)),
    )
  ]

  module _ (h : List ℕ) (cached full : Bool) (o : ℕ) where
    abbrev next : Transaction
    next = decision P f h cached full o

    -- In the filter state, with the counts of a running period: what is decided on an access,
    -- before the wrapped policy has taken or refused it, is to go on in the insert state exactly
    -- when the access ends the period, the cache is full, more than 5% of the accesses of the
    -- period hit the miss history, and fewer hit the cache than the miss history.
    pub opens_iff :
        f.state ≡ FomoState.filter
        → is_insert next.state ≡ (
            (f.counter + 1 == f.period_size)
            && (full
                && (ltb f.period_size (20 * (b + one_if (mem o h)))
                    && ltb (a + one_if cached) (b + one_if (mem o h)))))
    unfolding decision set_filter end_period count_hits transaction_init switch
    opens_iff filtering =
        ground (
          arith, period_end, k.c_hits, k.mh_hits, k.cache_bound, k.history_bound, k.running,
          k.small,
        )

    -- In the insert state, with the counts of a running period: what is decided on an access,
    -- before the wrapped policy has taken or refused it, is to leave the insert state exactly when
    -- the access ends the period, the cache is full, and no more accesses of the period hit the
    -- miss history than the cache.
    pub closes_iff :
        f.state ≡ FomoState.insert
        → not (is_insert next.state) ≡ (
            (f.counter + 1 == f.period_size)
            && (full && leb (b + one_if (mem o h)) (a + one_if cached)))
    unfolding decision set_filter end_period count_hits transaction_init switch
    closes_iff inserting =
        ground (
          arith, period_end, k.c_hits, k.mh_hits, k.cache_bound, k.history_bound, k.running,
          k.small,
        )

    -- With the counts of a running period: the counts that are decided on an access, which FOMO
    -- takes over if the access is filtered or forwarded, count it as well, or are those of a new
    -- period if it was the last of its own; no word wraps.
    pub counted-after :
        (g : Ghost) (s : P.State)
        → Counted P
            (record f {
              ghost = g;
              internal = s;
              counter = next.counter;
              c_hits = next.c_hits;
              mh_hits = next.mh_hits;
              state = next.state;
              mh_hits_total = next.mh_hits_total;
            })
            (if f.counter + 1 == f.period_size then 0 else a + one_if cached)
            (if f.counter + 1 == f.period_size then 0 else b + one_if (mem o h))
    unfolding decision set_filter end_period count_hits transaction_init
    counted-after g s = record {
      c_hits = ground (arith, period_end, k.c_hits, k.cache_bound, k.running, k.small);
      mh_hits = ground (arith, period_end, k.mh_hits, k.history_bound, k.running, k.small);
      cache_bound = ground (arith, period_end, no_wrap, k.cache_bound);
      history_bound = ground (arith, period_end, no_wrap, k.history_bound);
      running = ground (arith, period_end, no_wrap, k.running);
      small = k.small;
    }
