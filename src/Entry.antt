-- ===== src/Entry.antt =====
-- src/include/entry.h and the statistics of src/include/policy_stats.h.
pub mod Stats
use fomo.Base.{ℕ, Bool, update, false}
use fomo.Queue.{Queues}

-- `struct entry` less its list heads: `ht_list` is the place in `Table`, `pool_list` the place in
-- `Pool`, and `wb_list` the head of the same number in `Memory.wb`.
pub record Entry : Type 0 where
  pub oblock : ℕ
  pub time : ℕ
  pub dirty : Bool
  pub allocated : Bool
  pub migrating : Bool

-- The entries by their address, in units of one policy entry, and the writeback queues.
pub record Memory : Type 0 where
  pub entry : ℕ → Entry
  pub wb : Queues

-- `e->oblock = oblock; e->dirty = false;`
unfoldable pub name_entry : Memory → ℕ → ℕ → Memory
name_entry m e oblock = record m {
  entry = update m.entry e (record (m.entry e) { oblock = oblock; dirty = false });
}

-- `e->oblock = oblock;`
unfoldable pub rename_entry : Memory → ℕ → ℕ → Memory
rename_entry m e oblock = record m {
  entry = update m.entry e (record (m.entry e) { oblock = oblock });
}
