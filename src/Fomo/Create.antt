-- ===== src/Fomo/Create.antt =====
-- src/fomo/fomo_policy.c: a new FOMO.
use fomo.Base.{ℕ, ◌/◌, Option, some, ◌>>=◌, max}
use fomo.Entry.{Memory}
use fomo.Pool
use fomo.Queue
use fomo.Queue.{no_queues}
use fomo.Ghost.{mh}
use fomo.Nucleus
use fomo.Nucleus.Policy.{Policy}
use fomo.Fomo.{Fomo, FomoState}

-- `fomo_init` where `mem_alloc` finds the memory, the meta pool at `address`.
unfoldable pub init : (P : Policy) → (ℕ → ℕ → ℕ) → Memory → ℕ → ℕ → P.State → Option (Fomo P)
init P hash m address cache_size internal =
    Nucleus.policy_init hash m (Pool.create 0 0) (Pool.create address cache_size) 0 cache_size
    >>= λ n. some (record {
      ghost = record { nucleus = n; queues = Queue.init no_queues mh };
      ghost_size = cache_size;
      internal = internal;
      state = FomoState.insert;
      counter = 0;
      period_size = max (cache_size / 100) 1;
      c_hits = 0;
      mh_hits = 0;
      mh_hits_total = 0;
    })
