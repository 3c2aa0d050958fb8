-- ===== src/Fomo/Start.antt =====
-- src/fomo/fomo_policy.c: a new FOMO and its miss history.
use fomo.Base.{ℕ, ◌/◌, ◌<◌, ◌≡◌, refl, [], some, u32_mod, max, arith}
use fomo.Entry.{Memory}
use fomo.Queue
use fomo.Ghost.{mh}
use fomo.Nucleus.Policy.{Policy}
use fomo.Fomo.{Fomo, FomoState}
use fomo.Fomo.Create.{init}
use fomo.Queue.{no_queues}
use fomo.Ghost.Fresh.{policy_init-Blank, Blank-Shows}
use fomo.Fomo.Refine.{IsValid}
use fomo.Fomo.Periods.{Counted}

-- For every size of a word but 0, whatever the memory held, `fomo_init` succeeds: FOMO is valid
-- with an empty history of that size, inserts, and is at the start of a period.
pub init-IsValid :
    (P : Policy) (hash : ℕ → ℕ → ℕ) (m : Memory) (address size : ℕ) (s : P.State)
    → 0 < size
    → size < u32_mod
    → (f : Fomo P) × (init P hash m address size s ≡ some f)
      × IsValid P f []
      × Counted P f 0 0
      × (f.state ≡ FomoState.insert)
      × (f.internal ≡ s)
      × (f.ghost_size ≡ size)
unfolding init
init-IsValid P hash m address size s pos word =
    let (n, made, b) = policy_init-Blank hash m address size word in
    (
      record {
        ghost = record { nucleus = n; queues = Queue.init no_queues mh };
        ghost_size = size;
        internal = s;
        state = FomoState.insert;
        counter = 0;
        period_size = max (size / 100) 1;
        c_hits = 0;
        mh_hits = 0;
        mh_hits_total = 0;
      },
      rw made,
      record {
        shows = Blank-Shows n size word b;
        within = omega arith;
        positive = pos;
        period = ground arith;
      },
      record {
        c_hits = refl;
        mh_hits = refl;
        cache_bound = omega arith;
        history_bound = omega arith;
        running = ground arith;
        small = ground arith;
      },
      refl,
      refl,
      refl,
    )
