-- ===== src/Nucleus/Policy.antt =====
-- src/include/cache_nucleus_api.h: the function pointers of `struct cache_nucleus`, as the
-- operations of a policy over a state of its own.
use fomo.Base.{ℕ, Bool, Option}
use fomo.Entry.Stats.{Stats}
use fomo.Nucleus.{Result, Operation}

-- An operation that can fault, or change the state, says so by its result. A lookup changes the
-- order of a chain. `pool_is_full` is `epool_empty` of the policy's own `cache_pool`.
pub record Policy : Type 1 where
  pub State : Type 0
  pub map : State → ℕ → Bool → Result → Option (State × Result)
  pub remove : State → ℕ → Bool → Option State
  pub insert : State → ℕ → ℕ → Option State
  pub migrated : State → ℕ → Option State
  pub cache_lookup : State → ℕ → Option ℕ × State
  pub meta_lookup : State → ℕ → Option ℕ × State
  pub cblock_lookup : State → ℕ → Option ℕ
  pub remap : State → ℕ → ℕ → Option State
  pub get_stats : State → Stats → Stats
  pub set_time : State → ℕ → State
  pub residency : State → ℕ
  pub cache_is_full : State → Bool
  pub infer_cblock : State → ℕ → Option ℕ
  pub next_victim : State → ℕ → Option (Operation × Option ℕ × State)
  pub pool_is_full : State → Bool
