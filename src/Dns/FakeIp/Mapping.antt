-- ===== src/Dns/FakeIp/Mapping.antt =====
-- dns/fakeIp.ts: domains and addresses, on any calls.
use sepigs.Base.{
  ℕ, ◌≤◌, ◌<◌, ◌≡◌, refl, ap, ◌∙◌, subst, Bool, true, some, List, [], ◌∷◌, arith, nat_eq, string_eq,
  if_either, length,
}
use sepigs.Base.Table.{get, IsKeyed}
use sepigs.Base.Text.{Text, text_key}
use sepigs.Base.Result.{ok, bind-ok}
use sepigs.Dns.FakeIpPool.{FakeIpPool, new_pool, pool_contains}
use sepigs.Dns.FakeIpPool.Range.{IsPool, new_pool-IsPool, pool_contains-InPool}
use sepigs.Dns.FakeIpStore.{
  FakeIpRecord, FakeIpStore, get_by_address, get_by_domain, empty_store, load, load_each,
}
use sepigs.Dns.FakeIpStore.Coherent.{Holds}
use sepigs.Dns.FakeIpStore.Changes.{
  Lookup-Keeps, held_domain, held_address, Lookup, absent, expired, hit, get_by_address-Lookup,
  get_by_domain-Lookup,
}
use sepigs.Dns.FakeIp.{FakeIpService, new_service, assigned_after, assign, reverse_lookup, contains}
use sepigs.Dns.FakeIp.Assigning.{IsService, Keeps-IsService, assign-Assigned}

-- A record that has not expired is found by its address, and its domain by the address.
reverse_lookup-held :
    (now : ℕ) (v : FakeIpService) (r : FakeIpRecord)
    → IsService v
    → Holds v.store r
    → now < r.expires_at
    → (reverse_lookup now r.address v).0 ≡ some r.domain
unfolding reverse_lookup
reverse_lookup-held now v r w h m = go (get_by_address-Lookup now r.address v.store)
  where
    there : get r.address v.store.by_address ≡ some r
    there = (w.store.of_domain r.domain r h).1

    go :
        Lookup now v.store (get r.address v.store.by_address) (get_by_address now r.address v.store)
        → (reverse_lookup now r.address v).0 ≡ some r.domain
    go (absent f e) = absurd (cc (f, there))
    go (expired q f n e) =
        (let same : q ≡ r = cc (f, there) in
          absurd (omega (arith, ap (λ (t : FakeIpRecord). t.expires_at) same)))
    go (hit q f n e) = (let same : q ≡ r = cc (f, there) in ground (arith, e, same))

assign-held :
    (lower : Text → Text) (now : ℕ) (domain : Text) (v : FakeIpService) (r : FakeIpRecord)
    → Holds v.store r
    → r.domain ≡ lower domain
    → now < r.expires_at
    → (assign lower now domain v).0 ≡ ok r.address
unfolding assign
assign-held lower now domain v r h p m = go (get_by_domain-Lookup now (lower domain) v.store)
  where
    there : get (lower domain) v.store.by_domain ≡ some r
    there = subst (λ d. get d v.store.by_domain ≡ some r) p h

    go :
        Lookup now v.store
          (get (lower domain) v.store.by_domain)
          (get_by_domain now (lower domain) v.store)
        → (assign lower now domain v).0 ≡ ok r.address
    go (absent f e) = absurd (cc (f, there))
    go (expired q f n e) =
        (let same : q ≡ r = cc (f, there) in
          absurd (omega (arith, ap (λ (t : FakeIpRecord). t.expires_at) same)))
    go (hit q f n e) =
        (let same : q ≡ r = cc (f, there) in
          ap (λ t. (assigned_after now (lower domain) v t).0) e
          ∙ ap (λ (t : FakeIpRecord). ok t.address) same)

-- Until some later time, the address belongs to the domain: the reverse lookup gives the domain, and
-- another `assign` gives the address again.
abbrev pub Bound : (Text → Text) → ℕ → Text → Text → FakeIpService → Type 0
Bound lower now domain address v =
    (until : ℕ) × (now < until)
    × ((later : ℕ)
        → later < until
        → ((reverse_lookup later address v).0 ≡ some (lower domain))
          × ((assign lower later domain v).0 ≡ ok address))

-- On a well-formed service `assign` gives an address, exhausted or not; the pool contains it, and for a
-- time the domain and the address belong to each other.
pub assign-Bound :
    (lower : Text → Text) (now : ℕ) (domain : Text) (v : FakeIpService)
    → IsService v
    → (address : Text) × (v' : FakeIpService) × (assign lower now domain v ≡ (ok address, v'))
      × IsService v'
      × (contains v' address ≡ ok true)
      × Bound lower now domain address v'
unfolding contains
assign-Bound lower now domain v w =
    let a = assign-Assigned lower now domain v w in
    let result = assign lower now domain v in
    (
      a.entry.address,
      result.1,
      ap (λ t. (t, result.1)) a.result_ok,
      a.service,
      pool_contains-InPool result.1.pool a.entry.address a.service.pool
          (a.service.inside a.entry a.held),
      (
        a.entry.expires_at,
        a.valid,
        λ later m. (
          reverse_lookup-held later (result.1) a.entry a.service a.held m ∙ ap some a.named,
          assign-held lower later domain (result.1) a.entry a.held a.named m,
        ),
      ),
    )

pub data Call : Type 0 where
  assigning reversing : ℕ → Text → Call

unfoldable pub step : (Text → Text) → Call → FakeIpService → FakeIpService
step lower (assigning now domain) v = (assign lower now domain v).1
step lower (reversing now address) v = (reverse_lookup now address v).1

unfoldable pub run : (Text → Text) → List Call → FakeIpService → FakeIpService
run lower [] v = v
run lower (c ∷ cs) v = run lower cs (step lower c v)

step-IsService :
    (lower : Text → Text) (c : Call) (v : FakeIpService) → IsService v → IsService (step lower c v)
unfolding step reverse_lookup
step-IsService lower (assigning now domain) v w = (assign-Assigned lower now domain v w).service
step-IsService lower (reversing now address) v w =
    Keeps-IsService now v ((get_by_address now address v.store).1) w (
      Lookup-Keeps w.store (held_address v.store w.store address)
        (get_by_address-Lookup now address v.store))

pub run-IsService :
    (lower : Text → Text) (cs : List Call) (v : FakeIpService)
    → IsService v
    → IsService (run lower cs v)
unfolding run
run-IsService lower [] v w = w
run-IsService lower (c ∷ cs) v w =
    run-IsService lower cs (step lower c v) (step-IsService lower c v w)

-- A service with no records, as it starts without a file.
pub new_service-IsService :
    (range : Text) (size ttl_seconds : ℕ) (persists : Bool) (now : ℕ) (v : FakeIpService)
    → 1 ≤ size
    → 1 ≤ ttl_seconds
    → new_service range size ttl_seconds persists [] now ≡ ok v
    → IsService v
unfolding new_service load load_each IsKeyed get
new_service-IsService range size ttl_seconds persists now v h k e =
    let start : FakeIpPool → FakeIpService = λ pool. record {
      pool = pool;
      store = load now [] (empty_store size persists);
      ttl_seconds = ttl_seconds;
      assignments = 0;
    } in
    let (pool, f, g) = bind-ok (new_pool range size) (λ pool. ok (start pool)) e in
    let same : start pool ≡ v = cc g in
    subst IsService same (started pool (new_pool-IsPool range size pool f))
  where
    nothing : load now [] (empty_store size persists) ≡ empty_store size persists
    nothing =
        if_either (λ (t : FakeIpStore). t ≡ empty_store size persists) persists (λ _. refl)
          (λ _. refl)

    started :
        (pool : FakeIpPool)
        → IsPool pool
        → IsService (record {
          pool = pool;
          store = load now [] (empty_store size persists);
          ttl_seconds = ttl_seconds;
          assignments = 0;
        })
    started pool w = rw nothing (record {
      store = record { of_domain = λ d r a. cc a; of_address = λ d r a. cc a; keyed = tt };
      bound = omega arith;
      room = h;
      lasting = k;
      pool = w;
      inside = λ r a. cc a;
    })

-- After any calls on a service that started without records, no two domains have the same address, each
-- address belongs to the pool, and there are no more records than the store may hold.
pub run-one_to_one :
    (lower : Text → Text) (range : Text) (size ttl_seconds : ℕ) (persists : Bool) (now : ℕ)
    (v : FakeIpService) (cs : List Call)
    → 1 ≤ size
    → 1 ≤ ttl_seconds
    → new_service range size ttl_seconds persists [] now ≡ ok v
    → let v' = run lower cs v in
      ((d e : Text) (r q : FakeIpRecord)
        → get d v'.store.by_domain ≡ some r
        → get e v'.store.by_domain ≡ some q
        → r.address ≡ q.address
        → d ≡ e)
      × ((d : Text) (r : FakeIpRecord)
          → get d v'.store.by_domain ≡ some r
          → pool_contains v'.pool r.address ≡ ok true)
      × (length v'.store.by_domain ≤ v'.store.max_size)
run-one_to_one lower range size ttl_seconds persists now v cs h k e =
    let v' = run lower cs v in
    let w =
      run-IsService lower cs v
        (new_service-IsService range size ttl_seconds persists now v h k e) in
    (
      λ d f r q a b p.
          (let (rd, ra) = w.store.of_domain d r a in
            let (qd, qa) = w.store.of_domain f q b in cc (rd, qd, ra, qa, p)),
      λ d r a.
          pool_contains-InPool v'.pool r.address w.pool
            (w.inside r (held_domain v'.store w.store d r a)),
      w.bound,
    )
