-- ===== src/Mstar.antt =====
-- src/mstar: m*, which learns from the hit rates of its phases when to let new blocks into the
-- policy that it wraps.
pub mod Window
pub mod Ring
pub mod Push
pub mod Rate
pub mod Transition
pub mod Logic
pub mod Params
pub mod States
pub mod Policy
