-- ===== src/Base/Lists.antt =====
-- Lists of native numbers: lengths, tests of membership, removal, and lists without repetition.
use Prim.Native.Nat.{ℕ, zero, suc, ◌+◌, ◌≤◌, ◌<◌}
use mathlib.Core.Path.{◌≡◌, refl}
use mathlib.Core.Logic.{inl, inr}
use mathlib.Core.Bool.{Bool, true, false, not, ◌&&◌, ◌||◌}
use mathlib.Core.List.{List, [], ◌∷◌, ◌++◌, map}
use mathlib.Core.Option.{Option, none, some}
use native.Mathlib.Omega.{arith}
use fomo.Base.Tests.{◌==◌, if◌then◌else◌, ==_refl, Bool-cases}

module _ {ℓ} {A : Type ℓ} where
  abbrev pub length : List A → ℕ
  length [] = 0
  length (x ∷ xs) = suc (length xs)

  abbrev pub head? : List A → Option A
  head? [] = none
  head? (x ∷ xs) = some x

  abbrev pub is_nil : List A → Bool
  is_nil [] = true
  is_nil (x ∷ xs) = false

  -- A write out of bounds changes nothing.
  abbrev pub set : List A → ℕ → A → List A
  set [] i v = []
  set (x ∷ xs) zero v = v ∷ xs
  set (x ∷ xs) (suc i) v = x ∷ set xs i v

  abbrev pub replicate : ℕ → A → List A
  replicate zero a = []
  replicate (suc n) a = a ∷ replicate n a

  pub length-append : (xs ys : List A) → length (xs ++ ys) ≡ length xs + length ys
  length-append [] ys = omega arith
  length-append (x ∷ xs) ys = omega (arith, length-append xs ys)

-- Is the number among those of the list?
unfoldable pub mem : ℕ → List ℕ → Bool
mem a [] = false
mem a (x ∷ xs) = (a == x) || mem a xs

-- The list without the number.
unfoldable pub remove : ℕ → List ℕ → List ℕ
remove a [] = []
remove a (x ∷ xs) = let rest = remove a xs in if a == x then rest else x ∷ rest

-- No number stands twice.
abbrev pub Distinct : List ℕ → Type 0
Distinct [] = Unit
Distinct (x ∷ xs) = (mem x xs ≡ false) × Distinct xs

pub mem-nil : (a : ℕ) → mem a [] ≡ false
unfolding mem
mem-nil a = refl

pub mem-cons : (a x : ℕ) (xs : List ℕ) → mem a (x ∷ xs) ≡ ((a == x) || mem a xs)
unfolding mem
mem-cons a x xs = refl

pub mem-append : (a : ℕ) (xs ys : List ℕ) → mem a (xs ++ ys) ≡ (mem a xs || mem a ys)
unfolding mem
mem-append a [] ys = refl
mem-append a (x ∷ xs) ys = ground (arith, mem-append a xs ys)

pub mem-remove : (a b : ℕ) (xs : List ℕ) → mem a (remove b xs) ≡ (not (a == b) && mem a xs)
unfolding mem remove
mem-remove a b [] = ground arith
mem-remove a b (x ∷ xs) = ground (arith, mem-remove a b xs)

pub remove-cons_self : (x : ℕ) (xs : List ℕ) → mem x xs ≡ false → remove x (x ∷ xs) ≡ xs
unfolding mem remove
remove-cons_self x [] h = ground arith
remove-cons_self x (y ∷ ys) h = ground (arith, remove-cons_self x ys)

pub remove_absent : (a : ℕ) (xs : List ℕ) → mem a xs ≡ false → remove a xs ≡ xs
unfolding mem remove
remove_absent a [] h = refl
remove_absent a (x ∷ xs) h = ground (arith, remove_absent a xs)

pub remove-Distinct : (a : ℕ) (xs : List ℕ) → Distinct xs → Distinct (remove a xs)
unfolding remove
remove-Distinct a [] d = tt
remove-Distinct a (x ∷ xs) d = ground (arith, remove-Distinct a xs d.1, mem-remove x a xs)

pub append-Distinct :
    (xs : List ℕ) (a : ℕ) → Distinct xs → mem a xs ≡ false → Distinct (xs ++ a ∷ [])
unfolding mem
append-Distinct [] a d h = (refl, tt)
append-Distinct (x ∷ xs) a d h = ground (arith, append-Distinct xs a d.1, mem-append x xs (a ∷ []))

pub length-remove :
    (a : ℕ) (xs : List ℕ) → Distinct xs → mem a xs ≡ true → length (remove a xs) + 1 ≡ length xs
unfolding mem remove
length-remove a [] d h = cc
length-remove a (x ∷ xs) d h = ground (arith, length-remove a xs d.1, remove_absent a xs)

pub mem_length_pos : (a : ℕ) (xs : List ℕ) → mem a xs ≡ true → 0 < length xs
unfolding mem
mem_length_pos a [] h = cc
mem_length_pos a (x ∷ xs) h = omega arith

-- A list without repetitions is no longer than one that has all its elements.
pub length-subset :
    (xs ys : List ℕ)
    → Distinct xs
    → Distinct ys
    → ((a : ℕ) → mem a xs ≡ true → mem a ys ≡ true)
    → length xs ≤ length ys
unfolding mem
length-subset [] ys d e h = omega arith
length-subset (x ∷ xs) ys d e h =
    let inside : mem x ys ≡ true = h x (ground arith) in
    omega (
      arith,
      length-remove x ys e inside,
      length-subset xs (remove x ys) d.1 (remove-Distinct x ys e)
          (λ a m. ground (arith, h a, mem-remove a x ys, d.0)),
    )

pub mem-snoc : (a : ℕ) (xs : List ℕ) (x : ℕ) → mem a (xs ++ x ∷ []) ≡ (mem a xs || (a == x))
unfolding mem
mem-snoc a [] x = ground arith
mem-snoc a (y ∷ xs) x = ground (arith, mem-snoc a xs x)

pub length-snoc {ℓ} : {A : Type ℓ} (xs : List A) (x : A) → length (xs ++ x ∷ []) ≡ length xs + 1
length-snoc xs x = length-append xs (x ∷ [])

-- Whatever is removed, a list grows no longer.
pub length-remove-le : (a : ℕ) (xs : List ℕ) → length (remove a xs) ≤ length xs
unfolding remove
length-remove-le a [] = omega arith
length-remove-le a (x ∷ xs) = ground (arith, length-remove-le a xs)

module _ (f : ℕ → ℕ) where
  pub mem-map : (a : ℕ) (xs : List ℕ) → mem a xs ≡ true → mem (f a) (map f xs) ≡ true
  unfolding mem
  mem-map a [] h = cc
  mem-map a (x ∷ xs) h = ground (arith, mem-map a xs)

  -- A value of the function on the list comes from an element.
  pub mem-map_inv :
      (b : ℕ) (xs : List ℕ) → mem b (map f xs) ≡ true → (a : ℕ) × (mem a xs ≡ true) × (f a ≡ b)
  unfolding mem
  mem-map_inv b [] h = cc
  mem-map_inv b (x ∷ xs) h = elim (Bool-cases (b == f x)) [
    | inl e ↦ (x, ground arith, ground arith)
    | inr ne ↦ let (a, m, e) = mem-map_inv b xs (ground arith) in (a, ground arith, e)
  ]

  pub map-remove :
      (a : ℕ) (xs : List ℕ)
      → Distinct (map f xs)
      → mem a xs ≡ true
      → map f (remove a xs) ≡ remove (f a) (map f xs)
  unfolding mem remove
  map-remove a [] d m = cc
  map-remove a (x ∷ xs) d m =
      ground (
        arith,
        map-remove a xs d.1,
        mem-map a xs,
        remove_absent a xs,
        remove_absent (f x) (map f xs),
      )

  pub map_agree :
      (g : ℕ → ℕ) (xs : List ℕ) → ((a : ℕ) → mem a xs ≡ true → f a ≡ g a) → map f xs ≡ map g xs
  unfolding mem
  map_agree g [] h = refl
  map_agree g (x ∷ xs) h =
      ground (arith, h x, map_agree g xs (λ a m. h a (ground arith)), ==_refl x)

  pub length-map : (xs : List ℕ) → length (map f xs) ≡ length xs
  length-map [] = refl
  length-map (x ∷ xs) = omega (arith, length-map xs)

  pub map-snoc : (xs : List ℕ) (x : ℕ) → map f (xs ++ x ∷ []) ≡ map f xs ++ f x ∷ []
  map-snoc [] x = refl
  map-snoc (y ∷ xs) x = ground (arith, map-snoc xs x)

pub uncons_some {ℓ} :
    {A : Type ℓ} (xs : List A) → is_nil xs ≡ false → (x : A) × (rest : List A) × (xs ≡ x ∷ rest)
uncons_some [] h = cc
uncons_some (x ∷ xs) h = (x, xs, refl)

-- A list that is not empty has a first element.
pub uncons {ℓ} :
    {A : Type ℓ} (xs : List A) → 0 < length xs → (x : A) × (rest : List A) × (xs ≡ x ∷ rest)
uncons [] h = elim h [ ]
uncons (x ∷ xs) h = (x, xs, refl)

module _ {ℓ} {A : Type ℓ} where
  -- The element at an index, or the default.
  abbrev pub get_or : List A → ℕ → A → A
  get_or [] i d = d
  get_or (x ∷ xs) zero d = x
  get_or (x ∷ xs) (suc i) d = get_or xs i d

  pub length-set : (xs : List A) (i : ℕ) (v : A) → length (set xs i v) ≡ length xs
  length-set [] i v = refl
  length-set (x ∷ xs) zero v = refl
  length-set (x ∷ xs) (suc i) v = omega (arith, length-set xs i v)

  -- What stands at an index after a write.
  pub get_or-set :
      (xs : List A) (i j : ℕ) (v d : A)
      → i < length xs
      → get_or (set xs i v) j d ≡ (if i == j then v else get_or xs j d)
  get_or-set [] i j v d h = absurd (omega arith)
  get_or-set (x ∷ xs) zero zero v d h = refl
  get_or-set (x ∷ xs) zero (suc j) v d h = ground arith
  get_or-set (x ∷ xs) (suc i) zero v d h = ground arith
  get_or-set (x ∷ xs) (suc i) (suc j) v d h = ground (arith, get_or-set xs i j v d (omega arith))

  pub length-replicate : (n : ℕ) (a : A) → length (replicate n a) ≡ n
  length-replicate zero a = refl
  length-replicate (suc n) a = omega (arith, length-replicate n a)

  pub get_or-replicate : (n i : ℕ) (a : A) → get_or (replicate n a) i a ≡ a
  get_or-replicate zero i a = refl
  get_or-replicate (suc n) zero a = refl
  get_or-replicate (suc n) (suc i) a = get_or-replicate n i a
