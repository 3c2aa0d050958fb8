-- ===== src/Fomo/Api.antt =====
-- src/fomo/fomo_policy.c: the other operations of FOMO, and FOMO as a policy.
use fomo.Base.{ℕ, Bool, Option, none, some, not, if◌then◌else◌, ◌>>=◌, add32}
use fomo.Entry.Stats.{Stats}
use fomo.Ghost
use fomo.Ghost.{Ghost}
use fomo.Nucleus
use fomo.Nucleus.{Operation}
use fomo.Nucleus.Policy.{Policy}
use fomo.Fomo.{Fomo}
use fomo.Fomo.Decide.{transaction_init, transaction_set, transaction_is_legal}
use fomo.Fomo.Commit.{map}

module _ (P : Policy) where
  -- `fomo_remove`
  unfoldable pub remove : Fomo P → ℕ → Bool → Option (Fomo P)
  remove f oblock remove_to_history =
      let (meta_e, g) = Ghost.find f.ghost oblock in
      let kept : Option Ghost = elim meta_e [
        | none ↦ some g
        | some e ↦ if not remove_to_history then Ghost.drop g e else some g
      ] in
      kept >>= λ g'. P.remove f.internal oblock remove_to_history >>= λ s.
      some (record f { ghost = g'; internal = s })

  -- `fomo_insert`
  unfoldable pub insert : Fomo P → ℕ → ℕ → Option (Fomo P)
  insert f oblock cblock =
      P.insert f.internal oblock cblock >>= λ s. some (record f { internal = s })

  -- `fomo_migrated`
  unfoldable pub migrated : Fomo P → ℕ → Option (Fomo P)
  migrated f oblock = P.migrated f.internal oblock >>= λ s. some (record f { internal = s })

  -- `fomo_cache_lookup`
  unfoldable pub cache_lookup : Fomo P → ℕ → Option ℕ × Fomo P
  cache_lookup f oblock =
      let (e, s) = P.cache_lookup f.internal oblock in (e, record f { internal = s })

  -- `fomo_meta_lookup`
  unfoldable pub meta_lookup : Fomo P → ℕ → Option ℕ × Fomo P
  meta_lookup f oblock =
      let (e, s) = P.meta_lookup f.internal oblock in (e, record f { internal = s })

  -- The first part of `fomo_remap`: no entry may be left for the new block.
  unfoldable pub clear_name : Ghost → ℕ → Option Ghost
  clear_name g new_oblock =
      let (e?, g') = Ghost.find g new_oblock in
      elim e? [ none ↦ some g' | some e ↦ Ghost.drop g' e ]

  -- The second part: the entry of the current block, if there is one, takes the new block.
  unfoldable pub rename : Ghost → ℕ → ℕ → Ghost
  rename g current_oblock new_oblock =
      let (e?, g') = Ghost.find g current_oblock in
      elim e? [
        | none ↦ g'
        | some e ↦ record g' { nucleus = Nucleus.rehash g'.nucleus e new_oblock }
      ]

  -- `fomo_remap`
  unfoldable pub remap : Fomo P → ℕ → ℕ → Option (Fomo P)
  remap f current_oblock new_oblock = clear_name f.ghost new_oblock >>= λ g.
      P.remap f.internal current_oblock new_oblock >>= λ s.
      some (record f { ghost = rename g current_oblock new_oblock; internal = s })

  -- `fomo_get_stats`
  unfoldable pub get_stats : Fomo P → Stats → Stats
  get_stats f stats =
      let total = P.get_stats f.internal stats in
      record total { filters = add32 total.filters f.ghost.nucleus.stats.filters }

  -- `fomo_set_time`
  unfoldable pub set_time : Fomo P → ℕ → Fomo P
  set_time f time = record f {
    ghost = record f.ghost { nucleus = record f.ghost.nucleus { time = time } };
    internal = P.set_time f.internal time;
  }

  -- `fomo_cblock_lookup`
  unfoldable pub cblock_lookup : Fomo P → ℕ → Option ℕ
  cblock_lookup f cblock = P.cblock_lookup f.internal cblock

  -- `fomo_residency`
  unfoldable pub residency : Fomo P → ℕ
  residency f = P.residency f.internal

  -- `fomo_cache_is_full`
  unfoldable pub cache_is_full : Fomo P → Bool
  cache_is_full f = P.cache_is_full f.internal

  -- `fomo_infer_cblock`
  unfoldable pub infer_cblock : Fomo P → ℕ → Option ℕ
  infer_cblock f e = P.infer_cblock f.internal e

  -- `fomo_next_victim`
  unfoldable pub next_victim : Fomo P → ℕ → Option (Operation × Option ℕ × Fomo P)
  next_victim f oblock =
      let (f', ft) = transaction_set P f (transaction_init P f oblock) in
      transaction_is_legal P f' ft >>= λ l.
      (let (legal, f'') = l in
        if legal
        then (if ft.filter
            then some (Operation.filter, none, f'')
            else (P.next_victim f''.internal oblock >>= λ v.
                (let (op, victim, s) = v in some (op, victim, record f'' { internal = s }))))
        else some (Operation.fail, none, f''))

  -- The function pointers that `fomo_init` sets. FOMO keeps no entry in its own cache pool.
  abbrev pub as_policy : Policy
  as_policy = record {
    State = Fomo P;
    map = map P;
    remove = remove;
    insert = insert;
    migrated = migrated;
    cache_lookup = cache_lookup;
    meta_lookup = meta_lookup;
    cblock_lookup = cblock_lookup;
    remap = remap;
    get_stats = get_stats;
    set_time = set_time;
    residency = residency;
    cache_is_full = cache_is_full;
    infer_cblock = infer_cblock;
    next_victim = next_victim;
    pool_is_full = λ f. Nucleus.cache_is_full f.ghost.nucleus;
  }
