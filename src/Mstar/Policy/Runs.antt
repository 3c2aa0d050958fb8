-- ===== src/Mstar/Policy/Runs.antt =====
-- src/mstar/mstar_policy.c: any sequence of accesses to m*, over a wrapped policy that serves.
use fomo.Base.{
  ℕ, ◌+◌, ◌*◌, ◌/◌, ◌≤◌, ◌<◌, ◌≡◌, refl, sym, subst, ap, ◌∙◌, List, [], ◌∷◌, Bool, true, false,
  Option, some, mem, remove, length, ◌>>=◌, Bool-cases, inl, inr, is_some, mul32, u32_mod,
  length-snoc, length-remove-le, length-remove, Distinct, arith,
}
use fomo.Entry.{Memory}
use fomo.Queue
use fomo.Queue.{no_queues}
use fomo.Ghost
use fomo.Ghost.{Ghost, mh}
use fomo.Ghost.Valid.{Shows}
use fomo.Ghost.Find.{find-Shows, is_some-find}
use fomo.Ghost.Fresh.{policy_init-Blank, Blank-Shows}
use fomo.Nucleus.{Operation, Result}
use fomo.Nucleus.Policy.{Policy}
use fomo.Mstar.Logic.{Logic, StateId, logic_init}
use fomo.Mstar.States.Access
use fomo.Mstar.States.Access.{Advances, update-Advances, logic_init-IsValid}
use fomo.Mstar.Policy.{Mstar, unstable, access, map, init}
use fomo.Mstar.Policy.Size.{IsSized}
use fomo.Mstar.Policy.Refine.{
  ghost_after, trimmed, Serves, Done, hit-Done, ghost_hit-Done, ghost_miss-Done,
  length_control-Shows,
}

-- What an access of the logic has returned.
returned :
    {s : StateId} {o : Option Logic} → Advances s o → (l : Logic) × (o ≡ some l) × Access.IsValid l
returned (Advances.to l v f) = (l, refl, v)

length-ghost_after :
    (unstable full cached : Bool) (o : ℕ) (h : List ℕ)
    → Distinct h
    → length (ghost_after unstable full cached o h) ≤ length h + 1
unfolding ghost_after
length-ghost_after unstable full cached o h d =
    ground (
      arith,
      length-snoc h o,
      length-snoc (remove o h) o,
      length-remove-le o h,
      length-remove o h d,
    )

length-trimmed :
    (size most : ℕ) (h : List ℕ)
    → length h ≤ most + 1
    → size ≤ most
    → length (trimmed size h) ≤ most
unfolding trimmed
length-trimmed size most [] a b = ground arith
length-trimmed size most (x ∷ h) a b = ground arith

-- m* shows these blocks in its ghost cache, within the bounds of its size, with a valid logic.
pub record IsValid (P : Policy) (m : Mstar P) (c : ℕ) (h : List ℕ) : Type 0 where
  pub shows : Shows c m.ghost h
  pub sized : IsSized c m.ghost_size
  pub within : length h ≤ 9 * c / 10
  pub logic : Access.IsValid m.logic

-- The accesses of a trace, one after the other: the block, and whether it is written.
unfoldable pub run : (P : Policy) → Mstar P → List (ℕ × Bool) → Result → Option (Mstar P)
run P m [] result = some m
run P m ((o, write) ∷ accesses) result = map P m o write result >>= λ r. run P r.0 accesses r.1

-- m* is sound: it shows some blocks, and the wrapped policy is in one of the states `Ok`.
pub record IsSound (P : Policy) (Ok : P.State → Type 0) (c : ℕ) (m : Mstar P) : Type 0 where
  pub shown : List ℕ
  pub valid : IsValid P m c shown
  pub inner : Ok m.internal

module _ (P : Policy) (Ok : P.State → Type 0) (serves : Serves P Ok) where
  access-Done :
      {c : ℕ} {h : List ℕ} (m : Mstar P) (cached : Bool) (o : ℕ) (write : Bool) (result : Result)
      → IsValid P m c h
      → Ok m.internal
      → Done P Ok m c
          (ghost_after (unstable P m) (P.cache_is_full m.internal) cached o h)
          (access P m cached (mem o h) o write result)
  unfolding access
  access-Done {c} {h} m true o write result v ok =
      unfold ghost_after in hit-Done P Ok serves m o write result v.shows v.sized ok
  access-Done {c} {h} m false o write result v ok = elim (Bool-cases (mem o h)) [
    | inl found ↦ rw found (
        ghost_hit-Done P Ok serves m o write result v.shows v.sized ok found
          (omega (arith, v.within, v.sized.ten)))
    | inr new ↦ rw new (
        ghost_miss-Done P Ok serves m o write result v.shows v.sized ok new
          (omega (arith, v.within, v.sized.ten)))
  ]

  -- On a valid m* over a wrapped policy that serves: an access returns and leaves m* valid, and
  -- the ghost cache shows what the specification `ghost_after` says, less its oldest block if it
  -- is longer than the new size.
  pub map-IsValid :
      {c : ℕ} {h : List ℕ} (m : Mstar P) (o : ℕ) (write : Bool) (result : Result)
      → IsValid P m c h
      → Ok m.internal
      → (m' : Mstar P) × (result' : Result) × (map P m o write result ≡ some (m', result'))
        × IsValid P m' c (
            trimmed m'.ghost_size (
              ghost_after
                (unstable P m)
                (P.cache_is_full (P.cache_lookup m.internal o).1)
                (is_some (P.cache_lookup m.internal o).0)
                o
                h))
        × Ok m'.internal
  unfolding map
  map-IsValid {c} {h} m o write result v ok =
      let cached = is_some (P.cache_lookup m.internal o).0 in
      let full = P.cache_is_full (P.cache_lookup m.internal o).1 in
      let after = ghost_after (unstable P m) full cached o h in
      let names : Distinct h = subst Distinct v.shows.shown v.shows.valid.names in
      let looked = record m {
        ghost = (Ghost.find m.ghost o).1;
        internal = (P.cache_lookup m.internal o).1;
      } in
      let d =
        access-Done looked cached o write (record result { op = Operation.filter })
          (record {
            shows = find-Shows m.ghost o v.shows;
            sized = v.sized;
            within = v.within;
            logic = v.logic;
          })
          (serves.ask m.internal o ok) in
      let (g, trims, s) = length_control-Shows d.after.ghost d.shows d.after.ghost_size in
      let (l, updates, valid) = returned (
        update-Advances d.after.logic cached (mem o h)
          (subst Access.IsValid (sym d.logic_kept) v.logic)) in
      (
        record d.after { ghost = g; logic = l },
        d.result,
        rw (is_some-find m.ghost o v.shows, d.returns, trims, updates) refl,
        record {
          shows = s;
          sized = d.sized;
          within =
              length-trimmed d.after.ghost_size (9 * c / 10) after
                (omega (arith, v.within, length-ghost_after (unstable P m) full cached o h names))
                d.sized.most;
          logic = valid;
        },
        d.inner,
      )

  -- From a sound m* a trace of accesses of any length runs to its end without a fault and leaves
  -- m* sound, if the wrapped policy serves every lookup and access.
  pub mstar_run-IsSound :
      {c : ℕ} (m : Mstar P) (accesses : List (ℕ × Bool)) (result : Result)
      → IsSound P Ok c m
      → (m' : Mstar P) × (run P m accesses result ≡ some m') × IsSound P Ok c m'
  unfolding run
  mstar_run-IsSound m [] result s = (m, refl, s)
  mstar_run-IsSound m ((o, write) ∷ accesses) result s =
      let (m', r, mapped, v, ok) = map-IsValid m o write result s.valid s.inner in
      let (m'', ran, s'') =
        mstar_run-IsSound m' accesses r (record { shown = _; valid = v; inner = ok }) in
      (m'', ap (λ x. x >>= λ y. run P y.0 accesses y.1) mapped ∙ ran, s'')

-- For every cache of ten blocks or more that nine times fits a word, whatever the memory held,
-- `mstar_init` succeeds: m* is valid with an empty ghost cache, its size is nine tenths of the
-- cache, and the state is unstable.
pub mstar_init-IsValid :
    (P : Policy) (hash : ℕ → ℕ → ℕ) (mem : Memory) (address size : ℕ) (adaptive : Bool)
    (s : P.State)
    → 10 ≤ size
    → 9 * size < u32_mod
    → (m : Mstar P) × (init P hash mem address size adaptive s ≡ some m)
      × IsValid P m size []
      × (m.internal ≡ s)
      × (m.ghost_size ≡ 9 * size / 10)
      × (m.logic.state ≡ StateId.unstable)
unfolding init logic_init
mstar_init-IsValid P hash mem address size adaptive s ten word =
    let (n, made, b) = policy_init-Blank hash mem address size (omega arith) in
    let fits : mul32 9 size ≡ 9 * size = omega arith in
    (
      record {
        ghost = record { nucleus = n; queues = Queue.init no_queues mh };
        ghost_size = 9 * size / 10;
        internal = s;
        logic = logic_init adaptive size;
      },
      rw (made, fits) refl,
      record {
        shows = Blank-Shows n size (omega arith) b;
        sized = record { ten = ten; word = word; least = omega arith; most = omega arith };
        within = omega arith;
        logic = unfold logic_init in logic_init-IsValid adaptive size (omega arith) (omega arith);
      },
      refl,
      refl,
      refl,
    )
