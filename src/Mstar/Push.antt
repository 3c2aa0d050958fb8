-- ===== src/Mstar/Push.antt =====
-- src/mstar/mstar_phase.c: what a push into a window leaves.
use fomo.Base.{
  ℕ, suc, ◌+◌, ◌-◌, ◌≤◌, ◌<◌, ◌≡◌, refl, ◌∙◌, ap, sym, subst, ◌==◌, if◌then◌else◌, get_or, set,
  length-set, get_or-set, add32, arith, Bool-cases, inl, inr,
}
use fomo.Mstar.Window.{Window, pop, store, push}
use fomo.Mstar.Ring.{
  wrap, mod-eq-wrap, total, IsValid, total-le, wrap-wrap, wrap-ne, total-front, total-snoc,
  wrap-next, total-set,
}

-- A window that is not empty without its oldest value.
pub popped : Window → Window
popped w = record w {
  sum = w.sum - get_or w.values w.start 0;
  start = wrap w.size (w.start + 1);
  len = w.len - 1;
}

-- The window after its next place has taken a value.
abbrev pub stored : Window → ℕ → Window
stored w value = record w {
  values = set w.values w.end value;
  sum = w.sum + value;
  end = wrap w.size (w.end + 1);
  len = w.len + 1;
}

module _ (w : Window) (v : IsValid w) where
  pub sum-le : w.sum ≤ w.len
  sum-le = omega (arith, v.summed, total-le w.values w.size w.start w.len v.bits)

  front :
      0 < w.len
      → w.sum
        ≡ get_or w.values w.start 0 + total w.values w.size (wrap w.size (w.start + 1)) (w.len - 1)
  front some_value =
      let n : w.len ≡ suc (w.len - 1) = omega arith in
      v.summed
      ∙ ap (total w.values w.size w.start) n
      ∙ total-front w.values w.size w.start (w.len - 1) v.start_in (omega (arith, v.len_in))

  -- What a pop does to a full window.
  pop-eq-popped : w.len ≡ w.size → pop w ≡ popped w
  unfolding pop popped
  pop-eq-popped full =
      ground
        (arith, v.some_place, v.small, v.start_in, sum-le, front, mod-eq-wrap w.size (w.start + 1))

  popped-IsValid : 0 < w.len → IsValid (popped w)
  unfolding popped wrap
  popped-IsValid some_value = record {
    some_place = v.some_place;
    small = v.small;
    places = v.places;
    start_in = ground (arith, v.start_in);
    len_in = omega (arith, v.len_in);
    end_at = ground (arith, v.end_at, v.start_in, v.len_in);
    bits = v.bits;
    summed = unfold wrap in (omega (arith, front some_value));
  }

  popped_room : 0 < w.len → w.len ≤ w.size → (popped w).len < (popped w).size
  unfolding popped
  popped_room some_value fits = omega arith

  end_in : w.end < w.size
  unfolding wrap
  end_in = ground (arith, v.end_at, v.start_in, v.len_in)

  store-eq-stored :
      (value : ℕ)
      → w.len < w.size
      → value ≤ 1
      → (let w' = store w value in record w' { sum = add32 w'.sum value; len = add32 w'.len 1 })
        ≡ stored w value
  unfolding store
  store-eq-stored value room bit =
      ground (arith, v.small, sum-le, end_in, mod-eq-wrap w.size (w.end + 1))

  stored-IsValid : (value : ℕ) → w.len < w.size → value ≤ 1 → IsValid (stored w value)
  stored-IsValid value room bit = record {
    some_place = v.some_place;
    small = v.small;
    places = length-set w.values w.end value ∙ v.places;
    start_in = v.start_in;
    len_in = omega arith;
    end_at =
        ap (λ i. wrap w.size (i + 1)) v.end_at ∙ wrap-next w.size w.start w.len v.start_in room;
    bits = λ i. ground (arith, get_or-set w.values w.end i value 0, v.bits i, v.places, end_in);
    summed = ground (
      arith,
      v.summed,
      v.end_at,
      total-snoc (set w.values w.end value) w.size w.start w.len,
      total-set w.values w.size w.start w.len value w.len v.start_in room (omega arith) v.places,
      get_or-set w.values w.end w.end value 0,
      v.places,
      end_in,
    );
  }

-- The window that a push of the value should leave: a full one has dropped its oldest value.
pub pushed : Window → ℕ → Window
pushed w value = if w.len == w.size then stored (popped w) value else stored w value

push-eq-pushed : (w : Window) (value : ℕ) → IsValid w → value ≤ 1 → push w value ≡ pushed w value
unfolding push pushed
push-eq-pushed w value v bit = elim (Bool-cases (w.len == w.size)) [
  | inl full ↦ ground (
    arith,
    full,
    v.some_place,
    pop-eq-popped w v,
    store-eq-stored (popped w) (popped-IsValid w v (ground arith)) value
        (popped_room w v (ground arith) v.len_in),
  )
  | inr room ↦ ground (arith, room, v.some_place, v.len_in, store-eq-stored w v value)
]

pushed-IsValid : (w : Window) (value : ℕ) → IsValid w → value ≤ 1 → IsValid (pushed w value)
unfolding pushed
pushed-IsValid w value v bit = elim (Bool-cases (w.len == w.size)) [
  | inl full ↦ rw full (
      stored-IsValid (popped w) (popped-IsValid w v (ground arith)) value
        (popped_room w v (ground arith) v.len_in) bit)
  | inr room ↦ rw room (stored-IsValid w v value (ground (arith, v.len_in)) bit)
]

-- A push of 0 or 1 keeps a valid window valid, full or not: its sum stays that of the values in
-- it, and no word wraps.
pub push-IsValid : (w : Window) (value : ℕ) → IsValid w → value ≤ 1 → IsValid (push w value)
push-IsValid w value v bit =
    subst IsValid (sym (push-eq-pushed w value v bit)) (pushed-IsValid w value v bit)

-- The value that stands `k` places behind the oldest one.
abbrev pub recent : Window → ℕ → ℕ
recent w k = get_or w.values (wrap w.size (w.start + k)) 0

recent-stored :
    (w : Window) (value k : ℕ)
    → IsValid w
    → w.len < w.size
    → k ≤ w.len
    → recent (stored w value) k ≡ (if k == w.len then value else recent w k)
recent-stored w value k v room b = ground (
  arith,
  get_or-set w.values w.end (wrap w.size (w.start + k)) value 0,
  v.places,
  end_in w v,
  v.end_at,
  wrap-ne w.size w.start w.len k v.start_in room,
)

recent-popped :
    (w : Window) (k : ℕ) → IsValid w → k + 1 < w.size → recent (popped w) k ≡ recent w (k + 1)
unfolding popped
recent-popped w k v b =
    let next : k + 1 ≡ suc k = omega arith in
    ap (λ i. get_or w.values i 0) (wrap-wrap w.size w.start k v.start_in (omega arith))
    ∙ ap (recent w) (sym next)

len-popped : (w : Window) → (popped w).len ≡ w.len - 1
unfolding popped
len-popped w = refl

-- The value at each place after a push.
abbrev expected : Window → ℕ → ℕ → ℕ → ℕ
expected w value len k =
    if k + 1 == len then value else recent w (if w.len == w.size then k + 1 else k)

recent-pushed :
    (w : Window) (value k : ℕ)
    → IsValid w
    → k < (pushed w value).len
    → recent (pushed w value) k ≡ expected w value (pushed w value).len k
unfolding pushed
recent-pushed w value k v = elim (Bool-cases (w.len == w.size)) [
  | inl full ↦ rw full (λ b. ground (
    arith,
    recent-stored (popped w) value k (popped-IsValid w v (ground arith))
        (popped_room w v (ground arith) v.len_in),
    recent-popped w k v,
    len-popped w,
    v.some_place,
  ))
  | inr room ↦ rw room (λ b. ground (arith, recent-stored w value k v, v.len_in))
]

-- A push into a window that is full leaves it full; else it grows by one.
pub len-push :
    (w : Window) (value : ℕ)
    → IsValid w
    → value ≤ 1
    → (push w value).len ≡ (if w.len == w.size then w.len else w.len + 1)
unfolding pushed
len-push w value v bit = ap (λ u. u.len) (push-eq-pushed w value v bit) ∙ len-pushed
  where
    len-pushed : (pushed w value).len ≡ (if w.len == w.size then w.len else w.len + 1)
    len-pushed = ground (arith, len-popped w, v.len_in, v.some_place)

-- After a push of 0 or 1 into a valid window it has one value more, or as many as before if it was
-- full; its values are, in order, those before and then the new one, without the oldest if the
-- window was full.
pub recent-push :
    (w : Window) (value : ℕ)
    → IsValid w
    → value ≤ 1
    → ((push w value).len ≡ (if w.len == w.size then w.len else w.len + 1))
      × ((k : ℕ)
          → k < (push w value).len
          → recent (push w value) k ≡ (
              if k + 1 == (push w value).len
              then value
              else recent w (if w.len == w.size then k + 1 else k)))
recent-push w value v bit = (
  len-push w value v bit,
  (λ k.
      subst (λ u. k < u.len → recent u k ≡ expected w value u.len k)
        (sym (push-eq-pushed w value v bit)) (recent-pushed w value k v)),
)
