-- ===== src/Lru/Whole.antt =====
-- src/algs/lru/lru_policy.c: the choice of a victim, a new LRU, and LRU under the
-- policies that wrap it.
use fomo.Base.{
  ℕ, ◌*◌, ◌≤◌, ◌<◌, ◌≡◌, refl, ap, sym, subst, ◌∙◌, [], List, Bool, true, false, Option, none, some,
  ltb, Option-cases, Bool-cases, inl, inr, mem-nil, u32_mod, arith,
}
use fomo.Entry.{Memory}
use fomo.Pool.{in_pool, create}
use fomo.Queue
use fomo.Queue.{Queues, no_queues}
use fomo.Queue.Order
use fomo.Queue.Order.{peek-first}
use fomo.Nucleus.{Operation, Result, lookup, cache_is_full, default_cache_lookup}
use fomo.Nucleus.Fresh.{policy_init-Fresh}
use fomo.Lru.{Lru, lru_q, transaction_is_legal}
use fomo.Lru.Api.{as_policy, next_victim, init}
use fomo.Lru.Valid.{IsValid, looked, looked-IsValid}
use fomo.Lru.Map.{outcome, outcome_at, lru_map-outcome, set-known, set-new}
use fomo.Fomo.{Fomo}
use fomo.Fomo.Create
use fomo.Fomo.Start.{init-IsValid}
use fomo.Fomo.Runs
use fomo.Fomo.Runs.{Keeps, IsSound, run-IsSound}
use fomo.Mstar.Policy.{Mstar}
use fomo.Mstar.Policy as MstarPolicy
use fomo.Mstar.Policy.Refine.{Serves}
use fomo.Mstar.Policy.Runs as MstarRuns
use fomo.Mstar.Policy.Runs.{mstar_init-IsValid, mstar_run-IsSound}

-- The victim: the first entry of the queue where one is replaced.
abbrev pub victim_at : Lru → Operation → Option ℕ
victim_at l Operation.replace = Queue.peek l.queues lru_q
victim_at l Operation.hit = none
victim_at l Operation.filter = none
victim_at l Operation.new = none
victim_at l Operation.fail = none

module _ (l : Lru) (o : ℕ) (v : IsValid l) where
  chosen_new :
      (lookup l.nucleus o).0 ≡ none
      → next_victim l o ≡ some (outcome_at l none, victim_at l (outcome_at l none), looked l o)
  unfolding next_victim transaction_is_legal
  chosen_new missed = elim (Bool-cases (cache_is_full l.nucleus)) [
    | inr room ↦ rw (set-new l o v false missed room, room) refl
    | inl full ↦ elim (Bool-cases (ltb 0 (l.queues.len lru_q))) [
      | inl there ↦
          let (a, first, _) = peek-first l.queues lru_q (ground (arith, v.cached.len_eq)) in
          rw (set-new l o v true missed full, full, there, first) refl
      | inr gone ↦ rw (set-new l o v true missed full, full, gone) refl
    ]
  ]

  -- On a valid LRU the choice of a victim succeeds, changes no more than a lookup does and answers
  -- what an access would return; its victim is the first entry of the queue where one is replaced.
  pub lru_next_victim-outcome :
      next_victim l o ≡ some (outcome l o, victim_at l (outcome l o), looked l o)
  unfolding next_victim transaction_is_legal
  lru_next_victim-outcome = elim (Option-cases (lookup l.nucleus o).0) [
    | inl missed ↦
        subst
          (λ e?.
            next_victim l o ≡ some (outcome_at l e?, victim_at l (outcome_at l e?), looked l o))
          (sym missed) (chosen_new missed)
    | inr (e, known) ↦
        subst
          (λ e?.
            next_victim l o ≡ some (outcome_at l e?, victim_at l (outcome_at l e?), looked l o))
          (sym known) (rw (set-known l o v e known) refl)
  ]

-- The queue when it is new.
new_queue : Queues
new_queue = Queue.init no_queues lru_q

items-new_queue : new_queue.items lru_q ≡ []
unfolding new_queue Queue.init
items-new_queue = refl

new_queue-IsValid : Order.IsValid new_queue lru_q
unfolding new_queue Queue.init Queue.in_queue
new_queue-IsValid = record {
  len_eq = refl;
  distinct = tt;
  small = omega arith;
  parent_in = λ h. ground (arith, mem-nil h);
}

-- For a cache of two blocks or more whose size fits a word `lru_init` succeeds, and LRU is valid.
pub lru_init-IsValid :
    (hash : ℕ → ℕ → ℕ) (m : Memory) (address size : ℕ)
    → 1 < size
    → size < u32_mod
    → (l : Lru) × (init hash m address size ≡ some l) × IsValid l
unfolding init new_queue Queue.init
lru_init-IsValid hash m address size two word =
    let (n, made, f) =
      policy_init-Fresh hash m address 0 size 0 word (omega arith)
        (λ e i. unfold in_pool create in (ground arith)) in
    (
      record { nucleus = n; queues = new_queue },
      rw made refl,
      record {
        nucleus = f.valid;
        cached = new_queue-IsValid;
        homes = λ e. ground (arith, f.unused e);
        no_meta = λ e. unfold in_pool in (ground (arith, f.metas));
        two = ground (arith, f.caches);
      },
    )

-- The state that the choice of a victim leaves.
third : Lru → Option (Operation × Option ℕ × Lru) → Lru
third l none = l
third l (some (op, victim, l')) = l'

chosen-IsValid :
    (l l' : Lru) (o : ℕ) (op : Operation) (victim : Option ℕ)
    → IsValid l
    → next_victim l o ≡ some (op, victim, l')
    → IsValid l'
unfolding third
chosen-IsValid l l' o op victim v chosen =
    subst IsValid (ap (third l) (sym (lru_next_victim-outcome l o v) ∙ chosen))
      (looked-IsValid l o v)

lru-Keeps : Keeps as_policy IsValid
unfolding default_cache_lookup
lru-Keeps = record {
  ask = λ l o v. looked-IsValid l o v;
  choose = λ l o v. (_, _, _, lru_next_victim-outcome l o v, looked-IsValid l o v);
  able = λ l l' o op victim result v chosen able.
      (let d = lru_map-outcome l' o false result (chosen-IsValid l l' o op victim v chosen) in
        (d.after, d.result, d.returns, d.valid));
}

-- For a cache of two blocks or more whose size fits a word, and whatever the memory held: a new
-- LRU is made, and a new FOMO over it of any size of a word but 0; any trace of accesses to FOMO
-- runs to its end without a fault and leaves FOMO sound and LRU valid.
pub fomo_over_lru_runs :
    (hash : ℕ → ℕ → ℕ) (m : Memory) (address cache_size : ℕ)
    → 1 < cache_size
    → cache_size < u32_mod
    → (hash' : ℕ → ℕ → ℕ) (m' : Memory) (address' size : ℕ) → 0 < size
    → size < u32_mod
    → (accesses : List (ℕ × Bool))
    → (l : Lru) × (f f' : Fomo as_policy) × (init hash m address cache_size ≡ some l)
      × (Create.init as_policy hash' m' address' size l ≡ some f)
      × (Runs.run as_policy f accesses ≡ some f')
      × IsSound as_policy IsValid f'
fomo_over_lru_runs hash m address cache_size two word hash' m' address' size pos small accesses =
    let (l, made, v) = lru_init-IsValid hash m address cache_size two word in
    let (f, created, valid, counts, _, inner, _) =
      init-IsValid as_policy hash' m' address' size l pos small in
    let (f', ran, s) = run-IsSound as_policy IsValid lru-Keeps f accesses (record {
      shown = _;
      valid = valid;
      cache_count = _;
      history_count = _;
      counted = counts;
      inner = subst IsValid (sym inner) v;
    }) in
    (l, f, f', made, created, ran, s)

lru-Serves : Serves as_policy IsValid
unfolding default_cache_lookup
lru-Serves = record {
  ask = λ l o v. looked-IsValid l o v;
  able = λ l o write result v.
      (let d = lru_map-outcome l o write result v in (d.after, d.result, d.returns, d.valid));
}

-- For a cache of two blocks or more whose size fits a word, and whatever the memory held: a new
-- LRU is made, and m* over it, adaptive or static, for a size of ten blocks or more that nine
-- times fits a word; any trace of accesses to m* runs to its end without a fault and leaves m*
-- sound and LRU valid.
pub mstar_over_lru_runs :
    (hash : ℕ → ℕ → ℕ) (m : Memory) (address cache_size : ℕ)
    → 1 < cache_size
    → cache_size < u32_mod
    → (hash' : ℕ → ℕ → ℕ) (m' : Memory) (address' size : ℕ) (adaptive : Bool) → 10 ≤ size
    → 9 * size < u32_mod
    → (accesses : List (ℕ × Bool)) (result : Result)
    → (l : Lru) × (s s' : Mstar as_policy) × (init hash m address cache_size ≡ some l)
      × (MstarPolicy.init as_policy hash' m' address' size adaptive l ≡ some s)
      × (MstarRuns.run as_policy s accesses result ≡ some s')
      × MstarRuns.IsSound as_policy IsValid size s'
mstar_over_lru_runs hash m address cache_size two word hash' m' address' size adaptive ten word9
      accesses result =
    let (l, made, v) = lru_init-IsValid hash m address cache_size two word in
    let (s, created, valid, inner, _, _) =
      mstar_init-IsValid as_policy hash' m' address' size adaptive l ten word9 in
    let (s', ran, sound) =
      mstar_run-IsSound as_policy IsValid lru-Serves s accesses result
        (record { shown = _; valid = valid; inner = subst IsValid (sym inner) v }) in
    (l, s, s', made, created, ran, sound)
