-- ===== src/Cache/Tiered.antt =====
-- `TieredCache` of src/pooling/cache.rs: one cache in memory, and room for a second tier.
use rust_network_system.Base.{ℕ, Option, List}
use rust_network_system.Cache.{
  CacheEntry, Cache, CacheStats, default_config, with_capacity, with_ttl, new, get, insert, stats,
  clear,
}

pub record TieredCache (K V : Type 0) : Type 0 where
  pub l1 : Cache K V
  pub l1_capacity : ℕ

unfoldable pub new_tiered :
    {K V : Type 0} → (l1_capacity : ℕ) → (l1_ttl : Option ℕ) → TieredCache K V
unfolding new default_config with_capacity with_ttl
new_tiered capacity ttl = record {
  l1 = new (with_ttl (with_capacity default_config capacity) ttl);
  l1_capacity = capacity;
}

module _ {K V : Type 0} (dec : Discrete K) where
  unfoldable pub get_tiered : TieredCache K V → K → (now later : ℕ) → Option V × TieredCache K V
  unfolding get
  get_tiered c key now later = let r = get dec c.l1 key now later in (r.0, record c { l1 = r.1 })

  unfoldable pub insert_tiered :
      (List (K × CacheEntry V) → Option K) → TieredCache K V → K → V → ℕ → TieredCache K V
  unfolding insert
  insert_tiered first_key c key value now = record c {
    l1 = insert dec first_key c.l1 key value now;
  }

unfoldable pub stats_tiered : {K V : Type 0} → TieredCache K V → CacheStats
unfolding stats
stats_tiered c = stats c.l1

unfoldable pub clear_tiered : {K V : Type 0} → TieredCache K V → TieredCache K V
unfolding clear
clear_tiered c = record c { l1 = clear c.l1 }
