-- ===== src/Dns/FakeIp.antt =====
-- dns/fakeIp.ts: each domain has a fake address for as long as its record lives. `toLowerCase` is a
-- parameter, and `now` is what `Date.now()` gives during a call.
pub mod Searching
pub mod Assigning
pub mod Mapping
mod Tests
use sepigs.Base.{ℕ, ◌+◌, ◌*◌, Bool, Option, none, some, List, nat_eq, string_eq}
use sepigs.Base.Text.{Text, text_key}
use sepigs.Base.Result.{Result, ok, err, ◌>>=◌, ◌>>◌}
use sepigs.Dns.FakeIpPool.{FakeIpPool, PoolError, exhausted, next, new_pool, pool_contains}
use sepigs.Dns.FakeIpStore.{
  FakeIpStore, FakeIpRecord, get_by_domain, get_by_address, has_address, evict_oldest, set,
  empty_store, load,
}

pub record FakeIpService : Type 0 where
  pub pool : FakeIpPool
  pub store : FakeIpStore
  pub ttl_seconds : ℕ
  -- The calls of `onAssign`.
  pub assignments : ℕ

unfoldable pub new_service :
    Text → ℕ → ℕ → Bool → List FakeIpRecord → ℕ → Result PoolError FakeIpService
new_service range size ttl_seconds persists loaded now = do
  pool ← new_pool range size
  ok (record {
    pool = pool;
    store = load now loaded (empty_store size persists);
    ttl_seconds = ttl_seconds;
    assignments = 0;
  })

unfoldable pub record_for : ℕ → Text → Text → ℕ → FakeIpRecord
record_for now domain address ttl_seconds = record {
  domain = domain;
  address = address;
  expires_at = now + ttl_seconds * 1000;
}

-- The end of `assign`, with the address that was found.
unfoldable pub assign_address : ℕ → Text → Text → FakeIpService → FakeIpService
assign_address now domain address v = record v {
  store = set now (record_for now domain address v.ttl_seconds) v.store;
  assignments = v.assignments + 1;
}

-- The `catch` block, after the eviction.
abbrev pub assign_evicted :
    ℕ
    → Text
    → FakeIpService
    → Option FakeIpRecord × FakeIpStore
    → Result PoolError Text × FakeIpService
assign_evicted now domain v (none, s) = (err exhausted, record v { store = s })
assign_evicted now domain v (some r, s) =
    (ok r.address, assign_address now domain r.address (record v { store = s }))

-- After the search: the address that is free, or that of the oldest record.
abbrev pub assign_searched :
    ℕ
    → Text
    → FakeIpService
    → Option Text × FakeIpPool × FakeIpStore
    → Result PoolError Text × FakeIpService
assign_searched now domain v (some address, pool, s) =
    (ok address, assign_address now domain address (record v { pool = pool; store = s }))
assign_searched now domain v (none, pool, s) =
    assign_evicted now domain (record v { pool = pool; store = s }) (evict_oldest s)

unfoldable pub assign_new : ℕ → Text → FakeIpService → Result PoolError Text × FakeIpService
assign_new now domain v = assign_searched now domain v (next (has_address now) v.pool v.store)

-- After the lookup of the domain.
abbrev pub assigned_after :
    ℕ
    → Text
    → FakeIpService
    → Option FakeIpRecord × FakeIpStore
    → Result PoolError Text × FakeIpService
assigned_after now domain v (none, s) = assign_new now domain (record v { store = s })
assigned_after now domain v (some r, s) = (ok r.address, record v { store = s })

unfoldable pub assign :
    (Text → Text) → ℕ → Text → FakeIpService → Result PoolError Text × FakeIpService
assign lower now domain v =
    assigned_after now (lower domain) v (get_by_domain now (lower domain) v.store)

unfoldable pub reverse_lookup : ℕ → Text → FakeIpService → Option Text × FakeIpService
reverse_lookup now address v =
    let (found, store) = get_by_address now address v.store in
    (elim found [ none ↦ none | some r ↦ some r.domain ], record v { store = store })

unfoldable pub contains : FakeIpService → Text → Result PoolError Bool
contains v address = pool_contains v.pool address
