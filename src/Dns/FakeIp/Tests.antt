-- ===== src/Dns/FakeIp/Tests.antt =====
-- The service on a pool of two addresses.
use sepigs.Base.{◌≤◌, ◌≡◌, refl, true, false, some, List, [], ◌∷◌, arith, nat_eq, string_eq, length}
use sepigs.Base.Table.{get}
use sepigs.Base.Text.{Text, codes, split, text_key}
use sepigs.Base.Numbers.{number}
use sepigs.Base.Result.{ok}
use sepigs.Protocol.Address.{octets}
use sepigs.Dns.FakeIpPool.{ipv4_to_number, new_pool, pool_contains}
use sepigs.Dns.FakeIpStore.{FakeIpRecord, empty_store, load}
use sepigs.Dns.FakeIp.{FakeIpService, new_service, assign, contains}
use sepigs.Dns.FakeIp.Assigning.{IsService}
use sepigs.Dns.FakeIp.Mapping.{
  Bound, assign-Bound, Call, assigning, reversing, run, run-IsService, new_service-IsService,
  run-one_to_one,
}

abbrev range : Text
range = codes "198.18.0.0/15"

abbrev lower : Text → Text
lower t = t

abbrev service : FakeIpService
service = record {
  pool = record { first = 3323068417; capacity = 2; cursor = 0 };
  store = empty_store 2 false;
  ttl_seconds = 600;
  assignments = 0;
}

service_new : new_service range 2 600 false [] 0 ≡ ok service
unfolding new_service new_pool load split number octets ipv4_to_number
service_new = refl

abbrev calls : List Call
calls =
    assigning 5 (codes "a.test")
    ∷ assigning 6 (codes "b.test")
    ∷ reversing 7 (codes "198.18.0.1")
    ∷ assigning 8 (codes "c.test")
    ∷ []

abbrev busy : FakeIpService
busy = run lower calls service

busy-IsService : IsService busy
busy-IsService =
    run-IsService lower calls service
      (new_service-IsService range 2 600 false 0 service (omega arith) (omega arith) service_new)

assign-Bound_example :
    (address : Text) × (v' : FakeIpService) × (assign lower 9 (codes "d.test") busy
      ≡ (ok address, v'))
    × IsService v'
    × (contains v' address ≡ ok true)
    × Bound lower 9 (codes "d.test") address v'
assign-Bound_example = assign-Bound lower 9 (codes "d.test") busy busy-IsService

run-one_to_one_example :
    ((d e : Text) (r q : FakeIpRecord)
      → get d busy.store.by_domain ≡ some r
      → get e busy.store.by_domain ≡ some q
      → r.address ≡ q.address
      → d ≡ e)
    × ((d : Text) (r : FakeIpRecord)
        → get d busy.store.by_domain ≡ some r
        → pool_contains busy.pool r.address ≡ ok true)
    × (length busy.store.by_domain ≤ busy.store.max_size)
run-one_to_one_example =
    run-one_to_one lower range 2 600 false 0 service calls (omega arith) (omega arith) service_new
