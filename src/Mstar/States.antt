-- ===== src/Mstar/States.antt =====
-- src/mstar/mstar_logic.c and the state changes of src/mstar/mstar_transitions.c: which state
-- follows which.
pub mod Change
pub mod Access
pub mod Dwell
