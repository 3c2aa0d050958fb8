-- ===== src/Mstar/Window.antt =====
-- src/mstar/mstar_phase.c: a window of recent values with their sum, and the statistics of a phase.
-- An access outside of the values changes nothing or reads 0; a valid window (Ring) makes none.
use fomo.Base.{
  ℕ, zero, suc, ◌+◌, ◌-◌, ◌/◌, ◌%◌, List, ltb, ◌==◌, ◌&&◌, if◌then◌else◌, get_or, set, replicate,
  add32, sub32, mul32,
}

-- `struct window_stats`. The values are not allocated for size 0.
pub record Window : Type 0 where
  pub values : List ℕ
  pub sum : ℕ
  pub start : ℕ
  pub end : ℕ
  pub len : ℕ
  pub size : ℕ

-- `window_stats_init` where `mem_alloc` finds the memory.
unfoldable pub init : ℕ → Window
init size = record { values = replicate size 0; sum = 0; start = 0; end = 0; len = 0; size = size }

-- `window_stats_clear`
unfoldable pub clear : Window → Window
clear w = record w { sum = 0; start = 0; end = 0; len = 0 }

-- The loop of `window_stats_copy`, from index `i` on.
unfoldable pub copy_values : ℕ → ℕ → List ℕ → List ℕ → List ℕ
copy_values zero i to from = to
copy_values (suc n) i to from = copy_values n (i + 1) (set to i (get_or from i 0)) from

-- `window_stats_copy`, which requires that the sizes are equal.
unfoldable pub copy : Window → Window → Window
copy to from = record to {
  values = copy_values from.size 0 to.values from.values;
  sum = from.sum;
  start = from.start;
  end = from.end;
  len = from.len;
}

-- `window_stats_pop`: the sum loses a value only if the window is full.
unfoldable pub pop : Window → Window
pop w =
    if ltb 0 w.len && ltb 0 w.size
    then record w {
      sum = if w.len == w.size then sub32 w.sum (get_or w.values w.start 0) else w.sum;
      start = add32 w.start 1 % w.size;
      len = w.len - 1;
    }
    else w

-- The value goes into its place, if the window has any.
unfoldable pub store : Window → ℕ → Window
store w value = record w { values = set w.values w.end value; end = add32 w.end 1 % w.size }

-- `window_stats_push`
unfoldable pub push : Window → ℕ → Window
push w value =
    let w' = (if ltb 0 w.size then store (if w.len == w.size then pop w else w) value else w) in
    record w' { sum = add32 w'.sum value; len = add32 w'.len 1 }

-- `window_stats_average`
unfoldable pub average : Window → ℕ
average w = if w.len == 0 then 0 else w.sum / w.len

-- `window_stats_average_hundredths`
unfoldable pub average_hundredths : Window → ℕ
average_hundredths w = if w.len == 0 then 0 else mul32 100 w.sum / w.len

-- `struct phase_stats`
pub record Phase : Type 0 where
  pub cache_stats : Window
  pub ghost_stats : Window

-- `phase_stats_init` where the memory is found.
unfoldable pub phase_init : ℕ → Phase
phase_init size = record { cache_stats = init size; ghost_stats = init size }

-- `phase_cache_hitrate`
unfoldable pub phase_cache_hitrate : Phase → ℕ
phase_cache_hitrate p = average_hundredths p.cache_stats

-- `phase_ghost_hitrate`
unfoldable pub phase_ghost_hitrate : Phase → ℕ
phase_ghost_hitrate p = average_hundredths p.ghost_stats

-- `phase_stats_clear`
unfoldable pub phase_clear : Phase → Phase
phase_clear p = record { cache_stats = clear p.cache_stats; ghost_stats = clear p.ghost_stats }

-- `phase_stats_copy`
unfoldable pub phase_copy : Phase → Phase → Phase
phase_copy to from = record {
  cache_stats = copy to.cache_stats from.cache_stats;
  ghost_stats = copy to.ghost_stats from.ghost_stats;
}
