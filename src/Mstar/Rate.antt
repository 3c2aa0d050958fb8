-- ===== src/Mstar/Rate.antt =====
-- src/mstar/mstar_phase.c: windows that are new, cleared or copied, and a hit rate in
-- hundredths.
use fomo.Base.{
  ℕ, zero, suc, ◌+◌, ◌*◌, ◌≤◌, ◌<◌, ◌≡◌, refl, ◌∙◌, List, [], ◌∷◌, ltb, if◌then◌else◌, get_or, set,
  length, length-set, get_or-set, get_or-replicate, length-replicate, u32_mod, arith, leb, ◌&&◌,
}
use native.Mathlib.Nat.{div-le_of_le-mul}
use fomo.Mstar.Window.{Window, init, clear, copy_values, copy, average_hundredths}
use fomo.Mstar.Ring.{wrap, total, IsValid}
use fomo.Mstar.Push.{sum-le}

pub init-IsValid : (size : ℕ) → 0 < size → size + size < u32_mod → IsValid (init size)
unfolding init wrap total
init-IsValid size pos small = record {
  some_place = pos;
  small = small;
  places = length-replicate size 0;
  start_in = pos;
  len_in = omega arith;
  end_at = ground arith;
  bits = λ i. omega (arith, get_or-replicate {A = ℕ} size i 0);
  summed = refl;
}

pub clear-IsValid : (w : Window) → IsValid w → IsValid (clear w)
unfolding clear wrap total
clear-IsValid w v = record {
  some_place = v.some_place;
  small = v.small;
  places = v.places;
  start_in = v.some_place;
  len_in = omega arith;
  end_at = ground (arith, v.some_place);
  bits = v.bits;
  summed = refl;
}

-- The places that the loop has passed hold the values of the other window.
length-copy_values : (n i : ℕ) (to from : List ℕ) → length (copy_values n i to from) ≡ length to
unfolding copy_values
length-copy_values zero i to from = refl
length-copy_values (suc n) i to from =
    length-copy_values n (i + 1) (set to i (get_or from i 0)) from
    ∙ length-set to i (get_or from i 0)

get_or-copy_values :
    (n i : ℕ) (to from : List ℕ) (k : ℕ)
    → i + n ≤ length to
    → get_or (copy_values n i to from) k 0
      ≡ (if leb i k && ltb k (i + n) then get_or from k 0 else get_or to k 0)
unfolding copy_values
get_or-copy_values zero i to from k b = ground arith
get_or-copy_values (suc n) i to from k b = ground (
  arith,
  get_or-copy_values n (i + 1) (set to i (get_or from i 0)) from k,
  length-set to i (get_or from i 0),
  get_or-set to i k (get_or from i 0) 0,
)

-- Two lists of one length with the same elements are equal.
list_ext :
    (xs ys : List ℕ)
    → length xs ≡ length ys
    → ((k : ℕ) → k < length xs → get_or xs k 0 ≡ get_or ys k 0)
    → xs ≡ ys
list_ext [] [] l h = refl
list_ext [] (y ∷ ys) l h = absurd (omega arith)
list_ext (x ∷ xs) [] l h = absurd (omega arith)
list_ext (x ∷ xs) (y ∷ ys) l h =
    ground (arith, h 0, list_ext xs ys (omega arith) (λ k b. h (suc k) (omega arith)))

-- `window_stats_copy` between windows of one size, each with as many places, makes the first equal
-- to the second.
pub copy-eq :
    (to from : Window)
    → length to.values ≡ to.size
    → length from.values ≡ from.size
    → to.size ≡ from.size
    → copy to from ≡ from
unfolding copy
copy-eq to from a b c = ground (
  arith,
  list_ext (copy_values from.size 0 to.values from.values) from.values
      (omega (arith, length-copy_values from.size 0 to.values from.values))
      (λ k l. ground (
        arith,
        get_or-copy_values from.size 0 to.values from.values k,
        length-copy_values from.size 0 to.values from.values,
      )),
)

-- The hit rate in hundredths of a valid window is at most 100, if 100 times its size is a word.
pub hundredths-le : (w : Window) → IsValid w → 100 * w.size < u32_mod → average_hundredths w ≤ 100
unfolding average_hundredths
hundredths-le w v fits = ground (
  arith,
  sum-le w v,
  v.len_in,
  div-le_of_le-mul w.len {m = 100 * w.sum} {n = 100} (omega (arith, sum-le w v)),
)
