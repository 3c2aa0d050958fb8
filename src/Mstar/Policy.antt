-- ===== src/Mstar/Policy.antt =====
-- src/mstar/mstar_policy.c and src/mstar/mstar_policy_struct.h: m* over the policy that it wraps.
pub mod Api
pub mod Size
pub mod Refine
pub mod Runs
use fomo.Base.{
  ℕ, ◌/◌, Bool, true, false, Option, none, some, is_some, ltb, leb, ◌==◌, not, ◌&&◌, ◌||◌,
  if◌then◌else◌, ◌>>=◌, add32, sub32, mul32, min, max,
}
use fomo.Entry.{Memory}
use fomo.Entry.Stats.{inc_filters, inc_ios}
use fomo.Pool
use fomo.Queue
use fomo.Queue.{no_queues}
use fomo.Ghost
use fomo.Ghost.{Ghost, mh}
use fomo.Nucleus
use fomo.Nucleus.{Operation, Result}
use fomo.Nucleus.Policy.{Policy}
use fomo.Mstar.Logic.{Logic, is_unstable, update, logic_init}

-- `struct mstar_policy`, whose `nucleus` and `mstar_g` are the `ghost`.
pub record Mstar (P : Policy) : Type 0 where
  pub ghost : Ghost
  pub ghost_size : ℕ
  pub internal : P.State
  pub logic : Logic

-- `mstar_evict`: `queue_pop_entry` and then `mstar_only_remove`, which asserts that there is one.
unfoldable pub evict : Ghost → Option Ghost
evict g = let (e?, q) = Queue.pop g.queues mh in e? >>= λ e. Ghost.drop (record g { queues = q }) e

-- `mstar_ghost_length_control`
unfoldable pub length_control : Ghost → ℕ → Option Ghost
length_control g ghost_size = if ltb ghost_size (g.queues.len mh) then evict g else some g

-- `mstar_increase_ghost_size`, of the sizes of the cache and of the ghost cache.
unfoldable pub increase_ghost_size : ℕ → ℕ → Option ℕ
increase_ghost_size cache_size ghost_size =
    if ltb 0 ghost_size
    then some (min (mul32 9 cache_size / 10) (add32 ghost_size (cache_size / ghost_size)))
    else none

-- `mstar_decrease_ghost_size`
unfoldable pub decrease_ghost_size : ℕ → ℕ → Option ℕ
decrease_ghost_size cache_size ghost_size =
    let tmp = cache_size / sub32 cache_size ghost_size in
    if ltb ghost_size cache_size
    then some (
        if leb tmp ghost_size
        then max (cache_size / 10) (sub32 ghost_size tmp)
        else cache_size / 10)
    else none

module _ (P : Policy) where
  abbrev pub unstable : Mstar P → Bool
  unstable m = is_unstable m.logic.state

  -- `policy_map` of the wrapped policy.
  unfoldable pub pass : Mstar P → ℕ → Bool → Result → Option (Mstar P × Result)
  pass m oblock write result = P.map m.internal oblock write result >>= λ r.
      (let (s, result') = r in some (record m { internal = s }, result'))

  -- The label `not_caching` of `mstar_ghost_miss`.
  unfoldable pub not_caching : Mstar P → Mstar P
  not_caching m = record m {
    ghost = record m.ghost {
      nucleus = record m.ghost.nucleus { stats = inc_ios (inc_filters m.ghost.nucleus.stats) };
    };
  }

  -- `mstar_ghost_miss`
  unfoldable pub ghost_miss : Mstar P → ℕ → Bool → Result → Option (Mstar P × Result)
  ghost_miss m oblock write result =
      if P.cache_is_full m.internal
      then (Ghost.admit m.ghost oblock >>= λ g.
          increase_ghost_size m.ghost.nucleus.meta_size m.ghost_size >>= λ size.
          (let m' = record m { ghost = g; ghost_size = size } in
            if not (unstable m)
            then some (not_caching m', result)
            else pass m' oblock write result))
      else pass m oblock write result

  -- The changes of `mstar_ghost_hit` to the ghost cache.
  unfoldable pub ghost_again : Mstar P → ℕ → Option Ghost
  ghost_again m oblock =
      Ghost.forget m.ghost oblock >>= λ g. if unstable m then Ghost.admit g oblock else some g

  -- `mstar_ghost_hit`
  unfoldable pub ghost_hit : Mstar P → ℕ → Bool → Result → Option (Mstar P × Result)
  ghost_hit m oblock write result =
      if P.cache_is_full m.internal
      then (ghost_again m oblock >>= λ g.
          increase_ghost_size m.ghost.nucleus.meta_size m.ghost_size >>= λ size.
          pass (record m { ghost = g; ghost_size = size }) oblock write result)
      else pass m oblock write result

  -- `mstar_hit`
  unfoldable pub hit : Mstar P → ℕ → Bool → Result → Option (Mstar P × Result)
  hit m oblock write result = pass m oblock write result >>= λ r.
      (let (m', result') = r in
        if not (unstable m') || P.cache_is_full m'.internal
        then (decrease_ghost_size m'.ghost.nucleus.meta_size m'.ghost_size >>= λ size.
            some (record m' { ghost_size = size }, result'))
        else some (m', result'))

  -- The three cases of `mstar_map`.
  unfoldable pub access : Mstar P → Bool → Bool → ℕ → Bool → Result → Option (Mstar P × Result)
  access m cache_hit in_ghost oblock write result =
      if cache_hit
      then hit m oblock write result
      else (if in_ghost then ghost_hit m oblock write result else ghost_miss m oblock write result)

  -- `mstar_map`
  unfoldable pub map : Mstar P → ℕ → Bool → Result → Option (Mstar P × Result)
  map m oblock write result =
      let (internal_entry, s) = P.cache_lookup m.internal oblock in
      let (ghost_entry, g) = Ghost.find m.ghost oblock in
      let cache_hit = is_some internal_entry in
      let in_ghost = is_some ghost_entry in
      access (record m { ghost = g; internal = s }) cache_hit in_ghost oblock write
        (record result { op = Operation.filter })
      >>= λ r.
          (let (m', result') = r in
            length_control m'.ghost m'.ghost_size >>= λ g'.
            update m'.logic cache_hit in_ghost >>= λ l.
            some (record m' { ghost = g'; logic = l }, result'))

-- `mstar_init` where `mem_alloc` finds the memory, the meta pool at `address`.
unfoldable pub init :
    (P : Policy) → (ℕ → ℕ → ℕ) → Memory → ℕ → ℕ → Bool → P.State → Option (Mstar P)
init P hash mem address cache_size adaptive internal =
    Nucleus.policy_init hash mem (Pool.create 0 0) (Pool.create address cache_size) 0 cache_size
    >>= λ n. some (record {
      ghost = record { nucleus = n; queues = Queue.init no_queues mh };
      ghost_size = mul32 9 cache_size / 10;
      internal = internal;
      logic = logic_init adaptive cache_size;
    })
