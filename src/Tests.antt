-- ===== src/Tests.antt =====
-- The theorems at concrete inputs: a small wrapped policy, and FOMO, its parts and m* over it.
mod Larc
mod Heaps
mod Lfus
mod Lrus
mod Wrapped
mod Runs
mod Histories
mod Structures
mod Phases
mod Sizes
mod Handlers
