-- ===== src/Dns/Carryover/Tests.antt =====
-- A plan for a cache of one entry.
use sepigs.Base.{◌≡◌, refl, ◌≢◌, ◌⊎◌, ◌↔◌, true, false, [], ◌∷◌, nat_eq, string_eq}
use sepigs.Base.Text.{codes, text_key}
use sepigs.Base.Result.{ok, err}
use sepigs.Dns.Cache.{CacheEntry, DnsCache, udp}
use sepigs.Dns.Carryover.{DnsConfig, CarryoverPlan, fake_ip_changed, plan_carryover, plan_entries}
use sepigs.Dns.Carryover.Plans.{IsPlan, plan_carryover-IsPlan}

abbrev answer : CacheEntry
answer = record {
  host = codes "a.test";
  content = codes "192.0.2.1";
  expires_at = 100;
  touched_at = 1;
  source = udp;
  sensitive = false;
  synthetic = false;
}

abbrev cache : DnsCache
cache = record {
  positive_cache = (codes "a.test", answer) ∷ [];
  negative_cache = [];
  max_entries = 4;
}

abbrev config : DnsConfig
config = record {
  resolver = 1;
  fake_ip = 1;
  fake_ip_enabled = false;
  cache_ttl_ms = 20;
  negative_ttl_ms = 5;
  cache_max_entries = 4;
}

abbrev plan : CarryoverPlan
plan = plan_entries 50 true cache config

plan_test : plan.positive_entries ≡ (record answer { expires_at = 70; touched_at = 50 }) ∷ []
unfolding plan_entries
plan_test = refl

plan_carryover-IsPlan_example :
    ((config.fake_ip ≢ config.fake_ip)
      × (plan_carryover 50 true cache config config ≡ err fake_ip_changed))
    ⊎ ((plan : CarryoverPlan) × (config.fake_ip ≡ config.fake_ip)
        × (plan_carryover 50 true cache config config ≡ ok plan)
        × IsPlan 50 true cache config plan
        × ((plan.allowed ≡ true) ↔ (
            (config.resolver ≡ config.resolver)
            × (config.fake_ip_enabled ≡ false)
            × (config.fake_ip_enabled ≡ false))))
plan_carryover-IsPlan_example = plan_carryover-IsPlan 50 true cache config config
