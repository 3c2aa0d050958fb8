-- ===== src/Larc/Start.antt =====
-- src/algs/larc/larc_policy.c: a new LARC.
use fomo.Base.{
  ℕ, ◌/◌, ◌*◌, ◌≤◌, ◌<◌, ◌≡◌, refl, sym, subst, [], Distinct, true, false, some, mem-nil, u32_mod,
  arith,
}
use fomo.Entry.{Memory}
use fomo.Pool.{in_pool, create}
use fomo.Queue
use fomo.Queue.{Queues, no_queues}
use fomo.Queue.Order
use fomo.Nucleus.Fresh.{policy_init-Fresh}
use fomo.Larc.{Larc, q_list, g_list}
use fomo.Larc.Api.{init}
use fomo.Larc.Valid.{IsValid}

-- The two queues when they are new.
new_queues : Queues
new_queues = Queue.init (Queue.init no_queues q_list) g_list

items-new_queues : (q : ℕ) → new_queues.items q ≡ []
unfolding new_queues Queue.init
items-new_queues q = ground arith

new_queue-IsValid : (q : ℕ) → Order.IsValid new_queues q
unfolding new_queues Queue.init Queue.in_queue
new_queue-IsValid q = record {
  len_eq = ground arith;
  distinct = subst Distinct (sym (items-new_queues q)) tt;
  small = ground arith;
  parent_in = λ h. ground (arith, mem-nil h);
}

-- For a cache of two blocks or more and ten ghost entries or more, whose sizes fit a word, where
-- the two arrays of entries do not overlap, and whatever the memory held: `larc_init` succeeds and
-- LARC is valid, with a tenth of the ghost entries as the size of its ghost queue.
pub larc_init-IsValid :
    (hash : ℕ → ℕ → ℕ) (m : Memory) (cache_address meta_address cache_size meta_size : ℕ)
    → 1 < cache_size
    → cache_size < u32_mod
    → 10 ≤ meta_size
    → 9 * meta_size < u32_mod
    → ((e : ℕ)
        → in_pool (create cache_address cache_size) e ≡ true
        → in_pool (create meta_address meta_size) e ≡ false)
    → (l : Larc) × (init hash m cache_address meta_address cache_size meta_size ≡ some l)
      × IsValid l
      × (l.g_size ≡ meta_size / 10)
unfolding init new_queues Queue.init
larc_init-IsValid hash m cache_address meta_address cache_size meta_size two word ten word9 apart =
    let (n, made, f) =
      policy_init-Fresh hash m cache_address meta_address cache_size meta_size word (omega arith)
        apart in
    (
      record { nucleus = n; queues = new_queues; g_size = meta_size / 10 },
      rw made refl,
      record {
        placed = record {
          nucleus = f.valid;
          cached = new_queue-IsValid q_list;
          ghosts = new_queue-IsValid g_list;
          homes = λ e. ground (arith, f.unused e);
          still = f.still;
          sized = record {
            ten = ground (arith, f.limit);
            word = ground (arith, f.limit);
            least = ground (arith, f.limit);
            most = ground (arith, f.limit);
          };
          room = ground (arith, f.metas, f.limit);
          two = ground (arith, f.caches);
        };
        short = ground arith;
      },
      refl,
    )
