-- ===== src/Entry/Stats.antt =====
-- src/include/policy_stats.h: the counters of a policy, each an `unsigned`.
use fomo.Base.{ℕ, add32}

pub record Stats : Type 0 where
  pub ios : ℕ
  pub hits : ℕ
  pub misses : ℕ
  pub filters : ℕ
  pub promotions : ℕ
  pub demotions : ℕ
  pub private_stat : ℕ

-- `stats_init`
abbrev pub zeros : Stats
zeros = record {
  ios = 0;
  hits = 0;
  misses = 0;
  filters = 0;
  promotions = 0;
  demotions = 0;
  private_stat = 0;
}

unfoldable pub inc_ios : Stats → Stats
inc_ios s = record s { ios = add32 s.ios 1 }

unfoldable pub inc_hits : Stats → Stats
inc_hits s = record s { hits = add32 s.hits 1 }

unfoldable pub inc_misses : Stats → Stats
inc_misses s = record s { misses = add32 s.misses 1 }

unfoldable pub inc_filters : Stats → Stats
inc_filters s = record s { filters = add32 s.filters 1 }

unfoldable pub inc_promotions : Stats → Stats
inc_promotions s = record s { promotions = add32 s.promotions 1 }

unfoldable pub inc_demotions : Stats → Stats
inc_demotions s = record s { demotions = add32 s.demotions 1 }

unfoldable pub inc_private_stat : Stats → Stats
inc_private_stat s = record s { private_stat = add32 s.private_stat 1 }

-- `default_get_stats`: the counters of the policy are added to those passed in.
unfoldable pub add_stats : Stats → Stats → Stats
add_stats stats own = record {
  ios = add32 stats.ios own.ios;
  hits = add32 stats.hits own.hits;
  misses = add32 stats.misses own.misses;
  filters = add32 stats.filters own.filters;
  promotions = add32 stats.promotions own.promotions;
  demotions = add32 stats.demotions own.demotions;
  private_stat = add32 stats.private_stat own.private_stat;
}
