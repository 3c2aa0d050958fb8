-- ===== src/Larc.antt =====
-- src/algs/larc/larc_policy.c and src/algs/larc/larc_policy_struct.h: the state of LARC and the
-- transaction that decides what an access does.
pub mod Access
pub mod Api
pub mod Valid
pub mod Remove
pub mod Insert
pub mod Renew
pub mod Commit
pub mod Steps
pub mod Map
pub mod Victim
pub mod Start
pub mod Handlers
pub mod Whole
use fomo.Base.{
  ℕ, ◌+◌, ◌-◌, ◌/◌, Bool, true, false, Option, none, some, ltb, ◌==◌, not, if◌then◌else◌, ◌>>=◌,
  add32, sub32, mul32, min, max,
}
use fomo.Queue.{Queues}
use fomo.Nucleus
use fomo.Nucleus.{Nucleus}

-- `enum larc_list`
pub data Dest : Type 0 where
  larc_q larc_g larc_null : Dest

-- `struct larc_policy`, whose two queues are `queues`: the queue of the cache has the index
-- `q_list`, the ghost queue has `g_list`.
pub record Larc : Type 0 where
  pub nucleus : Nucleus
  pub queues : Queues
  pub g_size : ℕ

abbrev pub q_list : ℕ
q_list = 0

abbrev pub g_list : ℕ
g_list = 1

-- `struct larc_transaction`
pub record Transaction : Type 0 where
  pub oblock : ℕ
  pub g_size : ℕ
  pub c_hit : Bool
  pub c_evict : Bool
  pub g_hit : Bool
  pub g_evict : Bool
  pub dest : Dest

-- `larc_transaction_init`
unfoldable pub transaction_init : Larc → ℕ → Transaction
transaction_init l oblock = record {
  oblock = oblock;
  g_size = l.g_size;
  c_hit = false;
  c_evict = false;
  g_hit = false;
  g_evict = false;
  dest = Dest.larc_null;
}

-- `larc_increase_g_size`: none is a division by zero.
unfoldable pub increase_g_size : Larc → Option ℕ
increase_g_size l =
    let c_size = l.nucleus.meta_size in
    if l.g_size == 0
    then none
    else some (min (mul32 9 c_size / 10) (add32 l.g_size (c_size / l.g_size)))

-- `larc_decrease_g_size`: none is a division by zero.
unfoldable pub decrease_g_size : Larc → Option ℕ
decrease_g_size l =
    let c_size = l.nucleus.meta_size in
    let tmp = c_size / sub32 c_size l.g_size in
    if sub32 c_size l.g_size == 0
    then none
    else some (if ltb tmp l.g_size then max (c_size / 10) (sub32 l.g_size tmp) else c_size / 10)

-- The part of `larc_transaction_set` for a block that is not in the cache.
unfoldable pub set_miss : Larc → Bool → Transaction → Transaction
set_miss l in_ghost lt =
    let full = Nucleus.cache_is_full l.nucleus in
    if in_ghost
    then record lt { g_hit = true; dest = Dest.larc_q; c_evict = if full then true else lt.c_evict }
    else (if not full then record lt { dest = Dest.larc_q } else record lt {
      dest = Dest.larc_g;
      g_evict = if ltb lt.g_size (add32 (l.queues.len g_list) 1) then true else lt.g_evict;
    })

-- `larc_transaction_set`
unfoldable pub transaction_set : Larc → Transaction → Option (Larc × Transaction)
transaction_set l lt =
    let (e?, n) = Nucleus.lookup l.nucleus lt.oblock in
    let l' = record l { nucleus = n } in
    if Nucleus.in_cache n e?
    then (decrease_g_size l' >>= λ size.
        some (l', record lt { c_hit = true; g_size = size; dest = Dest.larc_q }))
    else (increase_g_size l' >>= λ size.
        some (l', set_miss l' (Nucleus.in_meta n e?) (record lt { g_size = size })))

-- `larc_transaction_is_legal`
unfoldable pub transaction_is_legal : Larc → Transaction → Bool
transaction_is_legal l lt = if lt.c_evict then ltb 0 (l.queues.len q_list) else true
