-- ===== src/Nucleus/Fresh.antt =====
-- src/include/cache_nucleus_internal.h: `policy_init` over two pools that do not overlap.
use fomo.Base.{ℕ, ◌<◌, ◌≡◌, refl, true, false, some, mem-nil, u32_mod, add32, arith}
use fomo.Entry.{Memory}
use fomo.Entry.Stats.{zeros}
use fomo.Pool.{in_pool, create}
use fomo.Pool.Init.{init-IsValid}
use fomo.Pool.Valid.{frame-IsValid}
use fomo.Table.Size.{init-size}
use fomo.Nucleus.{Nucleus, policy_init}
use fomo.Nucleus.Valid.{IsValid, in_meta_pool, live}

-- A nucleus of two pools of these sizes, with all of their entries free.
pub record Fresh (n : Nucleus) (cache_size meta_size : ℕ) : Type 0 where
  pub valid : IsValid n
  pub unused : (e : ℕ) → live n e ≡ false
  pub still : (e : ℕ) → in_meta_pool n e ≡ true → (n.mem.entry e).migrating ≡ false
  pub caches : n.cache_pool.nr_entries ≡ cache_size
  pub metas : n.meta_pool.nr_entries ≡ meta_size
  pub limit : n.meta_size ≡ meta_size

pub policy_init-Fresh :
    (hash : ℕ → ℕ → ℕ) (m : Memory) (cache_address meta_address cache_size meta_size : ℕ)
    → cache_size < u32_mod
    → meta_size < u32_mod
    → ((e : ℕ)
        → in_pool (create cache_address cache_size) e ≡ true
        → in_pool (create meta_address meta_size) e ≡ false)
    → (n : Nucleus) × (policy_init hash m
          (create cache_address cache_size)
          (create meta_address meta_size)
          cache_size
          meta_size
        ≡ some n)
      × Fresh n cache_size meta_size
unfolding policy_init
policy_init-Fresh hash m cache_address meta_address cache_size meta_size cache_word meta_word
      apart =
    let (c, m1, made_c, v_c, in_c, nr_c, free_c, still_c, _, _) =
      init-IsValid cache_address cache_size m cache_word in
    let (p, m2, made_p, v_p, in_p, nr_p, free_p, still_p, keeps_free, keeps_still) =
      init-IsValid meta_address meta_size m1 meta_word in
    let (t, made_t, _, _, _, chains) = init-size hash (add32 cache_size meta_size) (omega arith) in
    let free_c2 : (e : ℕ) → in_pool c e ≡ true → (m2.entry e).allocated ≡ false =
      λ e i. keeps_free e (free_c e i) in
    (
      record {
        meta_size = meta_size;
        cache_size = cache_size;
        meta_pool = p;
        cache_pool = c;
        stats = zeros;
        ht = t;
        time = 0;
        mem = m2;
      },
      rw (made_c, made_p, made_t) refl,
      record {
        valid = record {
          cache =
              frame-IsValid c m1.entry m2.entry v_c (λ e i. ground (arith, free_c2 e i, free_c e i))
                (λ e i. ground (arith, keeps_still e (still_c e i), still_c e i));
          meta = v_p;
          apart = λ e i. ground (arith, apart e, in_c e, in_p e);
          chained = λ b e. ground (arith, chains b, mem-nil e, free_c2 e, free_p e);
          names = λ e a l k. ground (arith, free_c2 e, free_p e);
        };
        unused = λ e. ground (arith, free_c2 e, free_p e);
        still = still_p;
        caches = nr_c;
        metas = nr_p;
        limit = refl;
      },
    )
