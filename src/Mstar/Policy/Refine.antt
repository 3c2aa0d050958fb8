-- ===== src/Mstar/Policy/Refine.antt =====
-- src/mstar/mstar_policy.c: what an access does to the ghost cache, as a list of blocks.
use fomo.Base.{
  ℕ, ◌≤◌, ◌<◌, ◌≡◌, refl, subst, ap, ◌∙◌, List, [], ◌∷◌, ◌++◌, Bool, true, false, Option, some, mem,
  remove, length, Distinct, not, ◌||◌, ltb, if◌then◌else◌, ◌>>=◌, Bool-cases, inl, inr,
  length-remove, mem-remove, arith, ==_refl,
}
use fomo.Entry.Stats.{inc_filters, inc_ios}
use fomo.Queue
use fomo.Queue.Order.{pop-some, parent-take_out, take_out_lone}
use fomo.Ghost
use fomo.Ghost.{Ghost, mh}
use fomo.Ghost.Valid.{Shows}
use fomo.Ghost.Steps.{admit-Shows, forget-Shows, stats-Shows, len-Shows, rest_of, drop-oldest-Shows}
use fomo.Nucleus
use fomo.Nucleus.{Result}
use fomo.Nucleus.Policy.{Policy}
use fomo.Mstar.Policy.{
  Mstar, unstable, evict, length_control, increase_ghost_size, pass, not_caching, ghost_miss,
  ghost_again, ghost_hit, hit,
}
use fomo.Mstar.Policy.Size.{IsSized, increase_ghost_size-IsSized, decrease_ghost_size-IsSized}

-- The specification: while the cache is not full the ghost cache stays as it is; then a block that
-- misses both caches becomes the most recent, and one that hits the ghost cache leaves it, to come
-- back as the most recent in the unstable state.
unfoldable pub ghost_after : Bool → Bool → Bool → ℕ → List ℕ → List ℕ
ghost_after is_unstable full cached o h =
    if cached || not full
    then h
    else (if mem o h
        then (if is_unstable then remove o h ++ o ∷ [] else remove o h)
        else h ++ o ∷ [])

-- One block at most leaves a ghost cache that is longer than its size.
unfoldable pub trimmed : ℕ → List ℕ → List ℕ
trimmed size h = if ltb size (length h) then rest_of h else h

-- A head that has left its queue has none to leave.
take_out-take_out :
    (s : Queue.Queues) (h : ℕ) → Queue.take_out (Queue.take_out s h) h ≡ Queue.take_out s h
take_out-take_out s h = take_out_lone (Queue.take_out s h) h (ground (arith, parent-take_out s h h))

-- `mstar_evict` drops the oldest entry.
evict-eq : (g : Ghost) {e : ℕ} → Ghost.oldest g ≡ some e → evict g ≡ Ghost.drop g e
unfolding evict Ghost.oldest Ghost.drop
evict-eq g {e} old =
    ap (λ r. r.0 >>= λ x. Ghost.drop (record g { queues = r.1 }) x) (pop-some g.queues mh old)
    ∙ ap (λ q. Nucleus.remove_entry g.nucleus e >>= λ n. some (record { nucleus = n; queues = q }))
        (take_out-take_out g.queues e)

pub length_control-Shows :
    {cap : ℕ} {h : List ℕ} (g : Ghost) (s : Shows cap g h) (size : ℕ)
    → (g' : Ghost) × (length_control g size ≡ some g') × Shows cap g' (trimmed size h)
unfolding length_control trimmed
length_control-Shows {h = h} g s size = elim (Bool-cases (ltb size (length h))) [
  | inr fits ↦ (g, rw (len-Shows g s, fits), rw fits s)
  | inl long ↦
      let (e, g', old, dropped, s') = drop-oldest-Shows g s (ground arith) in
      (g', rw (len-Shows g s, long) (evict-eq g old ∙ dropped), rw long s')
]

-- What m* asks of the policy that it wraps, over the states `Ok`: lookups and accesses go well.
pub record Serves (P : Policy) (Ok : P.State → Type 0) : Type 0 where
  pub ask : (s : P.State) (o : ℕ) → Ok s → Ok (P.cache_lookup s o).1
  pub able :
      (s : P.State) (o : ℕ) (write : Bool) (result : Result)
      → Ok s
      → (s' : P.State) × (result' : Result) × (P.map s o write result ≡ some (s', result')) × Ok s'

module _ (P : Policy) (Ok : P.State → Type 0) where
  -- A step has returned with this ghost cache, a size in its bounds and the logic as it was.
  pub record Done (m : Mstar P) (c : ℕ) (h : List ℕ) (o : Option (Mstar P × Result)) : Type 0 where
    pub after : Mstar P
    pub result : Result
    pub returns : o ≡ some (after, result)
    pub shows : Shows c after.ghost h
    pub sized : IsSized c after.ghost_size
    pub logic_kept : after.logic ≡ m.logic
    pub inner : Ok after.internal

module _ (P : Policy) (Ok : P.State → Type 0) (serves : Serves P Ok) where
  pass-Done :
      {c : ℕ} {h : List ℕ} (m : Mstar P) (o : ℕ) (write : Bool) (result : Result)
      → Shows c m.ghost h
      → IsSized c m.ghost_size
      → Ok m.internal
      → Done P Ok m c h (pass P m o write result)
  unfolding pass
  pass-Done m o write result s z ok =
      let (t, result', mapped, ok') = serves.able m.internal o write result ok in
      record {
        after = record m { internal = t };
        result = result';
        returns = rw mapped refl;
        shows = s;
        sized = z;
        logic_kept = refl;
        inner = ok';
      }

  pub hit-Done :
      {c : ℕ} {h : List ℕ} (m : Mstar P) (o : ℕ) (write : Bool) (result : Result)
      → Shows c m.ghost h
      → IsSized c m.ghost_size
      → Ok m.internal
      → Done P Ok m c h (hit P m o write result)
  unfolding hit
  hit-Done {c} m o write result s z ok =
      let d = pass-Done m o write result s z ok in
      let (size, decreased, _, z') = decrease_ghost_size-IsSized c d.after.ghost_size d.sized in
      elim (Bool-cases (not (unstable P d.after) || P.cache_is_full d.after.internal)) [
        | inl smaller ↦ record {
          after = record d.after { ghost_size = size };
          result = d.result;
          returns = rw (d.returns, smaller, d.shows.limit, decreased) refl;
          shows = d.shows;
          sized = z';
          logic_kept = d.logic_kept;
          inner = d.inner;
        }
        | inr as_is ↦ record {
          after = d.after;
          result = d.result;
          returns = rw (d.returns, as_is) refl;
          shows = d.shows;
          sized = d.sized;
          logic_kept = d.logic_kept;
          inner = d.inner;
        }
      ]

  not_caching-Done :
      {c : ℕ} {h : List ℕ} (m : Mstar P) (g : Ghost) (size : ℕ) (result : Result)
      → Shows c g h
      → IsSized c size
      → Ok m.internal
      → Done P Ok m c h (some (not_caching P (record m { ghost = g; ghost_size = size }), result))
  not_caching-Done m g size result s z ok = record {
    after = not_caching P (record m { ghost = g; ghost_size = size });
    result = result;
    returns = refl;
    shows = unfold not_caching in stats-Shows g (inc_ios (inc_filters g.nucleus.stats)) s;
    sized = unfold not_caching in z;
    logic_kept = unfold not_caching in refl;
    inner = unfold not_caching in ok;
  }

  -- A step on m* with another ghost cache is one on the first.
  resized-Done :
      {c : ℕ} {h : List ℕ} (m : Mstar P) (g : Ghost) (size o : ℕ) (write : Bool) (result : Result)
      → Shows c g h
      → IsSized c size
      → Ok m.internal
      → Done P Ok m c h (pass P (record m { ghost = g; ghost_size = size }) o write result)
  resized-Done m g size o write result s z ok =
      let d = pass-Done (record m { ghost = g; ghost_size = size }) o write result s z ok in
      record {
        after = d.after;
        result = d.result;
        returns = d.returns;
        shows = d.shows;
        sized = d.sized;
        logic_kept = d.logic_kept;
        inner = d.inner;
      }

  pub ghost_miss-Done :
      {c : ℕ} {h : List ℕ} (m : Mstar P) (o : ℕ) (write : Bool) (result : Result)
      → Shows c m.ghost h
      → IsSized c m.ghost_size
      → Ok m.internal
      → mem o h ≡ false
      → length h < c
      → Done P Ok m c
          (ghost_after (unstable P m) (P.cache_is_full m.internal) false o h)
          (ghost_miss P m o write result)
  unfolding ghost_miss ghost_after
  ghost_miss-Done {c} {h} m o write result s z ok new room =
      elim (Bool-cases (P.cache_is_full m.internal)) [
        | inr not_full ↦ rw not_full (pass-Done m o write result s z ok)
        | inl full ↦
            let (g, admitted, s') = admit-Shows m.ghost s o new room in
            let (size, increased, _, z') = increase_ghost_size-IsSized c m.ghost_size z in
            let grown : increase_ghost_size m.ghost.nucleus.meta_size m.ghost_size ≡ some size =
              ap (λ k. increase_ghost_size k m.ghost_size) s.limit ∙ increased in
            elim (Bool-cases (unstable P m)) [
              | inl on ↦
                  rw (full, new, admitted, grown, on)
                    (resized-Done m g size o write result s' z' ok)
              | inr off ↦
                  rw (full, new, admitted, grown, off) (not_caching-Done m g size result s' z' ok)
            ]
      ]

  ghost_again-Shows :
      {c : ℕ} {h : List ℕ} (m : Mstar P) (o : ℕ)
      → Shows c m.ghost h
      → mem o h ≡ true
      → length h ≤ c
      → (g : Ghost) × (ghost_again P m o ≡ some g)
        × Shows c g (if unstable P m then remove o h ++ o ∷ [] else remove o h)
  unfolding ghost_again
  ghost_again-Shows {c} {h} m o s found fits =
      let (g, forgot, s') = forget-Shows m.ghost s o found in
      elim (Bool-cases (unstable P m)) [
        | inr off ↦ (g, rw (forgot, off) refl, rw off s')
        | inl on ↦
            let d : Distinct h = subst Distinct s.shown s.valid.names in
            let gone : mem o (remove o h) ≡ false = ground (arith, mem-remove o o h, ==_refl o) in
            let (g', admitted, s'') =
              admit-Shows g s' o gone (ground (arith, length-remove o h d found)) in
            (g', rw (forgot, on) admitted, rw on s'')
      ]

  pub ghost_hit-Done :
      {c : ℕ} {h : List ℕ} (m : Mstar P) (o : ℕ) (write : Bool) (result : Result)
      → Shows c m.ghost h
      → IsSized c m.ghost_size
      → Ok m.internal
      → mem o h ≡ true
      → length h ≤ c
      → Done P Ok m c
          (ghost_after (unstable P m) (P.cache_is_full m.internal) false o h)
          (ghost_hit P m o write result)
  unfolding ghost_hit ghost_after
  ghost_hit-Done {c} {h} m o write result s z ok found fits =
      elim (Bool-cases (P.cache_is_full m.internal)) [
        | inr not_full ↦ rw not_full (pass-Done m o write result s z ok)
        | inl full ↦
            let (g, again, s') = ghost_again-Shows m o s found fits in
            let (size, increased, _, z') = increase_ghost_size-IsSized c m.ghost_size z in
            let grown : increase_ghost_size m.ghost.nucleus.meta_size m.ghost_size ≡ some size =
              ap (λ k. increase_ghost_size k m.ghost_size) s.limit ∙ increased in
            rw (full, found, again, grown) (resized-Done m g size o write result s' z' ok)
      ]
