-- ===== src/Ghost.antt =====
-- The miss history that src/fomo/fomo_policy.c and src/mstar/mstar_policy.c keep alike: a nucleus
-- whose meta pool holds the entries, and one queue of them, least recent first.
pub mod Valid
pub mod Find
pub mod Drop
pub mod Admit
pub mod Steps
pub mod Fresh
pub mod Rename
pub mod Frame
use fomo.Base.{ℕ, List, Option, none, some, map, ◌>>=◌}
use fomo.Queue
use fomo.Queue.{Queues}
use fomo.Nucleus
use fomo.Nucleus.{Nucleus}

pub record Ghost : Type 0 where
  pub nucleus : Nucleus
  pub queues : Queues

-- The number of `fomo_mh`, and of `mstar_g`.
abbrev pub mh : ℕ
mh = 0

-- The queue, and the origin block of an entry.
abbrev pub entries : Ghost → List ℕ
entries g = g.queues.items mh

abbrev pub oblock_of : Ghost → ℕ → ℕ
oblock_of g e = (g.nucleus.mem.entry e).oblock

-- What the history means: the blocks missed, least recent first.
abbrev pub history : Ghost → List ℕ
history g = map (oblock_of g) (entries g)

-- `hash_lookup(&cn->ht, oblock)`
unfoldable pub find : Ghost → ℕ → Option ℕ × Ghost
find g oblock = let (e?, n) = Nucleus.lookup g.nucleus oblock in (e?, record g { nucleus = n })

-- `queue_remove` and `cache_nucleus_remove`, as in `fomo_remove_entry` and `mstar_only_remove`.
unfoldable pub drop : Ghost → ℕ → Option Ghost
drop g e = Nucleus.remove_entry g.nucleus e >>= λ n.
    some (record { nucleus = n; queues = Queue.take_out g.queues e })

-- `insert_in_meta` and `queue_push`
unfoldable pub admit : Ghost → ℕ → Option Ghost
admit g oblock = Nucleus.insert_in_meta g.nucleus oblock >>= λ r.
    (let (e, n) = r in some (record { nucleus = n; queues = Queue.push g.queues mh e }))

-- `queue_remove` and `queue_push`: to the most recent end.
unfoldable pub bump : Ghost → ℕ → Ghost
bump g e = record g { queues = Queue.push (Queue.take_out g.queues e) mh e }

-- `queue_peek_entry`
unfoldable pub oldest : Ghost → Option ℕ
oldest g = Queue.peek g.queues mh

-- `e = hash_lookup(..);` and then `fomo_remove_entry` or `mstar_only_remove`.
unfoldable pub forget : Ghost → ℕ → Option Ghost
forget g oblock = let (e?, g') = find g oblock in e? >>= λ e. drop g' e
