-- ===== src/Larc/Whole.antt =====
-- src/algs/larc/larc_policy.c: LARC as the policy that FOMO and m* wrap.
use fomo.Base.{
  ℕ, ◌*◌, ◌≤◌, ◌<◌, ◌≡◌, ap, sym, subst, ◌∙◌, List, Bool, true, false, Option, none, some, u32_mod,
}
use fomo.Entry.{Memory}
use fomo.Pool.{in_pool, create}
use fomo.Nucleus.{Operation, Result, default_cache_lookup}
use fomo.Larc.{Larc}
use fomo.Larc.Api
use fomo.Larc.Api.{as_policy, next_victim}
use fomo.Larc.Valid.{IsValid}
use fomo.Larc.Commit.{looked-IsValid}
use fomo.Larc.Map.{map-outcome}
use fomo.Larc.Victim.{next_victim-outcome}
use fomo.Larc.Start.{larc_init-IsValid}
use fomo.Fomo.{Fomo}
use fomo.Fomo.Create
use fomo.Fomo.Start.{init-IsValid}
use fomo.Fomo.Runs
use fomo.Fomo.Runs.{Keeps, IsSound, run-IsSound}
use fomo.Mstar.Policy.{Mstar}
use fomo.Mstar.Policy as MstarPolicy
use fomo.Mstar.Policy.Refine.{Serves}
use fomo.Mstar.Policy.Runs as MstarRuns
use fomo.Mstar.Policy.Runs.{mstar_init-IsValid, mstar_run-IsSound}

-- The state that the choice of a victim leaves.
third : Larc → Option (Operation × Option ℕ × Larc) → Larc
third l none = l
third l (some (op, victim, l')) = l'

chosen-IsValid :
    (l l' : Larc) (o : ℕ) (op : Operation) (victim : Option ℕ)
    → IsValid l
    → next_victim l o ≡ some (op, victim, l')
    → IsValid l'
unfolding third
chosen-IsValid l l' o op victim v chosen =
    subst IsValid (ap (third l) (sym (next_victim-outcome l o v) ∙ chosen)) (looked-IsValid l o v)

pub larc-Keeps : Keeps as_policy IsValid
unfolding default_cache_lookup
larc-Keeps = record {
  ask = λ l o v. looked-IsValid l o v;
  choose = λ l o v. (_, _, _, next_victim-outcome l o v, looked-IsValid l o v);
  able = λ l l' o op victim result v chosen able.
      (let d = map-outcome l' o false result (chosen-IsValid l l' o op victim v chosen) in
        (d.after, d.result, d.returns, d.valid));
}

pub larc-Serves : Serves as_policy IsValid
unfolding default_cache_lookup
larc-Serves = record {
  ask = λ l o v. looked-IsValid l o v;
  able = λ l o write result v.
      (let d = map-outcome l o write result v in (d.after, d.result, d.returns, d.valid));
}

module _ (hash : ℕ → ℕ → ℕ) (m : Memory) (cache_address meta_address cache_size meta_size : ℕ)
    (two : 1 < cache_size) (word : cache_size < u32_mod) (ten : 10 ≤ meta_size)
    (word9 : 9 * meta_size < u32_mod)
    (apart : (e : ℕ)
      → in_pool (create cache_address cache_size) e ≡ true
      → in_pool (create meta_address meta_size) e ≡ false) where
  -- For a cache of two blocks or more whose size fits a word, ten ghost entries or more whose
  -- number nine times fits a word, two arrays of entries that do not overlap, and whatever the
  -- memory held: a new LARC is made, and a new FOMO over it of any size of a word but 0; any trace
  -- of accesses to FOMO runs to its end without a fault and leaves FOMO sound and LARC valid.
  pub fomo_over_larc_runs :
      (hash' : ℕ → ℕ → ℕ) (m' : Memory) (address size : ℕ)
      → 0 < size
      → size < u32_mod
      → (accesses : List (ℕ × Bool))
      → (l : Larc) × (f f' : Fomo as_policy) × (Api.init hash m cache_address meta_address
            cache_size meta_size
          ≡ some l)
        × (Create.init as_policy hash' m' address size l ≡ some f)
        × (Runs.run as_policy f accesses ≡ some f')
        × IsSound as_policy IsValid f'
  fomo_over_larc_runs hash' m' address size pos small accesses =
      let (l, made, v, _) =
        larc_init-IsValid hash m cache_address meta_address cache_size meta_size two word ten word9
          apart in
      let (f, created, valid, counts, _, inner, _) =
        init-IsValid as_policy hash' m' address size l pos small in
      let (f', ran, s) = run-IsSound as_policy IsValid larc-Keeps f accesses (record {
        shown = _;
        valid = valid;
        cache_count = _;
        history_count = _;
        counted = counts;
        inner = subst IsValid (sym inner) v;
      }) in
      (l, f, f', made, created, ran, s)

  -- For a cache of two blocks or more whose size fits a word, ten ghost entries or more whose
  -- number nine times fits a word, two arrays of entries that do not overlap, and whatever the
  -- memory held: a new LARC is made, and m* over it, adaptive or static, for a size of ten blocks
  -- or more that nine times fits a word; any trace of accesses to m* runs to its end without a
  -- fault and leaves m* sound and LARC valid.
  pub mstar_over_larc_runs :
      (hash' : ℕ → ℕ → ℕ) (m' : Memory) (address size : ℕ) (adaptive : Bool)
      → 10 ≤ size
      → 9 * size < u32_mod
      → (accesses : List (ℕ × Bool)) (result : Result)
      → (l : Larc) × (s s' : Mstar as_policy) × (Api.init hash m cache_address meta_address
            cache_size meta_size
          ≡ some l)
        × (MstarPolicy.init as_policy hash' m' address size adaptive l ≡ some s)
        × (MstarRuns.run as_policy s accesses result ≡ some s')
        × MstarRuns.IsSound as_policy IsValid size s'
  mstar_over_larc_runs hash' m' address size adaptive ten' word9' accesses result =
      let (l, made, v, _) =
        larc_init-IsValid hash m cache_address meta_address cache_size meta_size two word ten word9
          apart in
      let (s, created, valid, inner, _, _) =
        mstar_init-IsValid as_policy hash' m' address size adaptive l ten' word9' in
      let (s', ran, sound) =
        mstar_run-IsSound as_policy IsValid larc-Serves s accesses result
          (record { shown = _; valid = valid; inner = subst IsValid (sym inner) v }) in
      (l, s, s', made, created, ran, sound)
