-- ===== src/Tests/Wrapped.antt =====
-- A policy for FOMO to wrap: a cache of two blocks, in the order in which they came. The other
-- operations are those of a policy that keeps no pool.
use fomo.Base.{
  ℕ, ◌%◌, ◌*◌, ◌≤◌, ◌<◌, subst, arith, ◌≡◌, refl, List, [], ◌∷◌, true, none, some, ltb, ◌==◌,
  if◌then◌else◌, mem, remove, length, not,
}
use fomo.Entry.{Memory}
use fomo.Fomo.{Fomo, FomoState}
use fomo.Fomo.Refine.{IsValid}
use fomo.Fomo.Periods.{Counted}
use fomo.Fomo.Runs.{Keeps}
use fomo.Fomo.Start.{init-IsValid}
use fomo.Queue.{no_queues}
use fomo.Fomo.Create.{init}
use fomo.Ghost.Valid.{Shows}
use fomo.Nucleus.{Operation}
use fomo.Nucleus.Policy.{Policy}

-- The cache with the block in it, the oldest block gone if it was full.
abbrev pub place : List ℕ → ℕ → List ℕ
place [] o = o ∷ []
place (x ∷ []) o = if x == o then x ∷ [] else x ∷ o ∷ []
place (x ∷ y ∷ rest) o = if mem o (x ∷ y ∷ rest) then x ∷ y ∷ rest else y ∷ o ∷ []

-- What an access to the block comes to. Block 13 cannot be cached.
abbrev pub outcome : List ℕ → ℕ → Operation
outcome blocks o =
    if o == 13
    then Operation.fail
    else (if mem o blocks
        then Operation.hit
        else (if ltb (length blocks) 2 then Operation.new else Operation.replace))

abbrev pub two_blocks : Policy
two_blocks = record {
  State = List ℕ;
  map = λ s o write result. some (place s o, record result { op = outcome s o });
  remove = λ s o to_history. some (remove o s);
  insert = λ s o c. some (place s o);
  migrated = λ s o. some s;
  cache_lookup = λ s o. (if mem o s then some o else none, s);
  meta_lookup = λ s o. (none, s);
  cblock_lookup = λ s c. none;
  remap = λ s o o'. some (place (remove o s) o');
  get_stats = λ s stats. stats;
  set_time = λ s time. s;
  residency = length {A = ℕ};
  cache_is_full = λ s. not (ltb (length s) 2);
  infer_cblock = λ s e. none;
  next_victim = λ s o. some (outcome s o, none, s);
  pool_is_full = λ s. not (ltb (length s) 2);
}

-- It keeps its promises in every state.
abbrev pub Any : List ℕ → Type 0
Any s = s ≡ s

pub two_blocks-Keeps : Keeps two_blocks Any
two_blocks-Keeps = record {
  ask = λ s o ok. refl;
  choose = λ s o ok. (outcome s o, none, s, refl, refl);
  able = λ s s' o op victim result ok chosen can.
      (place s' o, record result { op = outcome s' o }, refl, refl);
}

-- A hash that puts odd blocks and even blocks into two buckets, and what memory may hold.
abbrev pub parity : ℕ → ℕ → ℕ
parity o bits = o % 2

abbrev pub some_memory : Memory
some_memory = record {
  entry = λ e. record { oblock = 9; time = 3; dirty = true; allocated = true; migrating = true };
  wb = no_queues;
}

-- A FOMO of four blocks over it, as `fomo_init` makes it.
pub made :
    (f : Fomo two_blocks) × (init two_blocks parity some_memory 100 4 [] ≡ some f)
    × IsValid two_blocks f []
    × Counted two_blocks f 0 0
    × (f.state ≡ FomoState.insert)
    × (f.internal ≡ [])
    × (f.ghost_size ≡ 4)
made = init-IsValid two_blocks parity some_memory 100 4 [] (omega arith) (omega arith)

-- The same in a period of ten accesses that has seen `c` hits of the cache and `m` of the history,
-- in a state, over a cache that holds some blocks.
abbrev pub fomo_of : FomoState → ℕ → ℕ → ℕ → List ℕ → Fomo two_blocks
fomo_of state counter c m blocks = record {
  ghost = made.0.ghost;
  ghost_size = 4;
  internal = blocks;
  state = state;
  counter = counter;
  period_size = 10;
  c_hits = 1000 * c;
  mh_hits = 1000 * m;
  mh_hits_total = m;
}

pub fomo_of-IsValid :
    (state : FomoState) (counter c m : ℕ) (blocks : List ℕ)
    → IsValid two_blocks (fomo_of state counter c m blocks) []
fomo_of-IsValid state counter c m blocks =
    let (f, made, v, counted, inserting, inner, size) = made in
    record {
      shows = subst (λ n. Shows n f.ghost []) size v.shows;
      within = omega arith;
      positive = omega arith;
      period = omega arith;
    }

pub fomo_of-Counted :
    (state : FomoState) (counter c m : ℕ) (blocks : List ℕ)
    → c ≤ counter
    → m ≤ counter
    → counter < 10
    → Counted two_blocks (fomo_of state counter c m blocks) c m
fomo_of-Counted state counter c m blocks i j k = record {
  c_hits = refl;
  mh_hits = refl;
  cache_bound = i;
  history_bound = j;
  running = k;
  small = omega arith;
}
