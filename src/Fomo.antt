-- ===== src/Fomo.antt =====
-- src/fomo/fomo_policy.c and src/fomo/fomo_policy_struct.h: FOMO, which decides which accesses
-- reach the policy that it wraps.
pub mod Decide
pub mod Commit
pub mod Api
pub mod Create
pub mod History
pub mod Refine
pub mod Periods
pub mod Runs
pub mod Start
pub mod Handlers
pub mod Remap
use fomo.Base.{ℕ, Bool}
use fomo.Ghost.{Ghost}
use fomo.Nucleus.Policy.{Policy}

-- `enum fomo_state`
pub data FomoState : Type 0 where
  filter insert : FomoState

-- `struct fomo_policy`, whose `nucleus` and `fomo_mh` are the `ghost`.
pub record Fomo (P : Policy) : Type 0 where
  pub ghost : Ghost
  pub ghost_size : ℕ
  pub internal : P.State
  pub state : FomoState
  pub counter : ℕ
  pub period_size : ℕ
  pub c_hits : ℕ
  pub mh_hits : ℕ
  pub mh_hits_total : ℕ

-- `struct fomo_transaction`, less its two fields that nothing reads.
pub record Transaction : Type 0 where
  pub oblock : ℕ
  pub filter : Bool
  pub state : FomoState
  pub c_hit : Bool
  pub mh_hit : Bool
  pub c_hits : ℕ
  pub mh_hits : ℕ
  pub mh_hits_total : ℕ
  pub counter : ℕ
