-- ===== src/Mstar/Policy/Api.antt =====
-- src/mstar/mstar_policy.c: the other operations of m*, and m* as a policy.
use fomo.Base.{ℕ, Bool, Option, none, some, not, is_some, ◌||◌, if◌then◌else◌, ◌>>=◌, add32}
use fomo.Entry.Stats.{Stats}
use fomo.Ghost
use fomo.Ghost.{Ghost}
use fomo.Nucleus
use fomo.Nucleus.{Operation}
use fomo.Nucleus.Policy.{Policy}
use fomo.Mstar.Policy.{Mstar, unstable, map}

module _ (P : Policy) where
  -- `mstar_remove`
  unfoldable pub remove : Mstar P → ℕ → Bool → Option (Mstar P)
  remove m oblock remove_to_history =
      let (meta_e, g) = Ghost.find m.ghost oblock in
      let kept : Option Ghost = elim meta_e [
        | none ↦ some g
        | some e ↦ if not remove_to_history then Ghost.drop g e else some g
      ] in
      kept >>= λ g'. P.remove m.internal oblock remove_to_history >>= λ s.
      some (record m { ghost = g'; internal = s })

  -- `mstar_insert`
  unfoldable pub insert : Mstar P → ℕ → ℕ → Option (Mstar P)
  insert m oblock cblock =
      P.insert m.internal oblock cblock >>= λ s. some (record m { internal = s })

  -- `mstar_migrated`
  unfoldable pub migrated : Mstar P → ℕ → Option (Mstar P)
  migrated m oblock = P.migrated m.internal oblock >>= λ s. some (record m { internal = s })

  -- `mstar_cache_lookup`
  unfoldable pub cache_lookup : Mstar P → ℕ → Option ℕ × Mstar P
  cache_lookup m oblock =
      let (e, s) = P.cache_lookup m.internal oblock in (e, record m { internal = s })

  -- `mstar_meta_lookup`
  unfoldable pub meta_lookup : Mstar P → ℕ → Option ℕ × Mstar P
  meta_lookup m oblock =
      let (e, s) = P.meta_lookup m.internal oblock in (e, record m { internal = s })

  -- `mstar_cblock_lookup`
  unfoldable pub cblock_lookup : Mstar P → ℕ → Option ℕ
  cblock_lookup m cblock = P.cblock_lookup m.internal cblock

  -- `mstar_remap`: a block that is not in the ghost cache is a null pointer.
  unfoldable pub remap : Mstar P → ℕ → ℕ → Option (Mstar P)
  remap m current_oblock new_oblock =
      let (e?, g) = Ghost.find m.ghost current_oblock in
      e? >>= λ e. P.remap m.internal current_oblock new_oblock >>= λ s. some (record m {
        ghost = record g { nucleus = Nucleus.rehash g.nucleus e new_oblock };
        internal = s;
      })

  -- `mstar_get_stats`
  unfoldable pub get_stats : Mstar P → Stats → Stats
  get_stats m stats =
      let total = P.get_stats m.internal stats in
      record total { filters = add32 total.filters m.ghost.nucleus.stats.filters }

  -- `mstar_set_time`
  unfoldable pub set_time : Mstar P → ℕ → Mstar P
  set_time m time = record m {
    ghost = record m.ghost { nucleus = record m.ghost.nucleus { time = time } };
    internal = P.set_time m.internal time;
  }

  -- `mstar_residency`
  unfoldable pub residency : Mstar P → ℕ
  residency m = P.residency m.internal

  -- `mstar_cache_is_full`
  unfoldable pub cache_is_full : Mstar P → Bool
  cache_is_full m = P.cache_is_full m.internal

  -- `mstar_infer_cblock`
  unfoldable pub infer_cblock : Mstar P → ℕ → Option ℕ
  infer_cblock m e = P.infer_cblock m.internal e

  -- `mstar_next_victim`
  unfoldable pub next_victim : Mstar P → ℕ → Option (Operation × Option ℕ × Mstar P)
  next_victim m oblock =
      let (meta_e, g) = Ghost.find m.ghost oblock in
      let (internal_e, s) = P.cache_lookup m.internal oblock in
      let m' = record m { ghost = g; internal = s } in
      if is_some internal_e || (is_some meta_e || unstable P m')
      then (P.next_victim s oblock >>= λ v.
          (let (op, victim, s') = v in some (op, victim, record m' { internal = s' })))
      else some (Operation.filter, none, m')

  -- The function pointers that `mstar_init` sets. m* keeps no entry in its own cache pool.
  abbrev pub as_policy : Policy
  as_policy = record {
    State = Mstar P;
    map = map P;
    remove = remove;
    insert = insert;
    migrated = migrated;
    cache_lookup = cache_lookup;
    meta_lookup = meta_lookup;
    cblock_lookup = cblock_lookup;
    remap = remap;
    get_stats = get_stats;
    set_time = set_time;
    residency = residency;
    cache_is_full = cache_is_full;
    infer_cblock = infer_cblock;
    next_victim = next_victim;
    pool_is_full = λ m. Nucleus.cache_is_full m.ghost.nucleus;
  }
