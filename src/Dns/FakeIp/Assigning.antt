-- ===== src/Dns/FakeIp/Assigning.antt =====
-- dns/fakeIp.ts: `assign` on a well-formed service.
use sepigs.Base.{
  ℕ, ◌+◌, ◌≤◌, ◌<◌, ◌≡◌, refl, sym, ap, ◌∙◌, subst, inl, inr, Option, none, some, arith, nat_eq,
  string_eq, length,
}
use sepigs.Base.Table.{get, delete, get-delete, get-delete_same, delete_found, length-delete-le}
use sepigs.Base.Text.{Text, text_key}
use sepigs.Base.Result.{Result, ok}
use sepigs.Dns.FakeIpPool.{FakeIpPool, PoolError, number_to_ipv4, next}
use sepigs.Dns.FakeIpStore.{
  FakeIpRecord, FakeIpStore, has_address, get_by_domain, oldest, touch_record, delete_record,
  evict_oldest, evict,
}
use sepigs.Dns.FakeIpStore.Coherent.{
  IsStore, Holds, touch_record-Holds, oldest-Holds, delete_record-IsStore,
}
use sepigs.Dns.FakeIpStore.Changes.{
  Keeps, Keeps-absent, Lookup-Keeps, held_domain, Lookup, absent, expired, hit,
  get_by_domain-Lookup,
}
use sepigs.Dns.FakeIpStore.Setting.{set-AfterSet}
use sepigs.Dns.FakeIp.{
  FakeIpService, record_for, assign_address, assign_evicted, assign_searched, assigned_after,
  assign_new, assign,
}
use sepigs.Dns.FakeIpPool.Range.{IsPool, InPool}
use sepigs.Dns.FakeIp.Searching.{Searched, next-Searched, oldest_exists}

pub record IsService (v : FakeIpService) : Type 0 where
  pub store : IsStore v.store
  pub bound : length v.store.by_domain ≤ v.store.max_size
  pub room : 1 ≤ v.store.max_size
  pub lasting : 1 ≤ v.ttl_seconds
  pub pool : IsPool v.pool
  pub inside : (r : FakeIpRecord) → Holds v.store r → InPool v.pool r.address

-- The service is well-formed with a store that keeps the records that are valid.
pub Keeps-IsService :
    (now : ℕ) (v : FakeIpService) (s : FakeIpStore)
    → IsService v
    → Keeps now v.store s
    → IsService (record v { store = s })
Keeps-IsService now v s w k = record {
  store = k.store;
  bound = omega (arith, k.bound, k.limit, w.bound);
  room = omega (arith, k.limit, w.room);
  lasting = w.lasting;
  pool = w.pool;
  inside = λ r h. w.inside r (k.old r h);
}

-- The result is the address of a record for the domain that is valid and stands in the store.
pub record Assigned (now : ℕ) (domain : Text) (result : Result PoolError Text × FakeIpService)
    : Type 0 where
  pub entry : FakeIpRecord
  pub result_ok : result.0 ≡ ok entry.address
  pub named : entry.domain ≡ domain
  pub valid : now < entry.expires_at
  pub held : Holds (result.1.store) entry
  pub service : IsService (result.1)

assign_address-Assigned :
    (now : ℕ) (domain address : Text) (v : FakeIpService)
    → IsService v
    → get domain v.store.by_domain ≡ none
    → get address v.store.by_address ≡ none
    → InPool v.pool address
    → Assigned now domain (ok address, assign_address now domain address v)
unfolding assign_address record_for
assign_address-Assigned now domain address v w a b here =
    let r = record_for now domain address v.ttl_seconds in
    let after = set-AfterSet now r v.store w.store a b w.room w.bound (omega (arith, w.lasting)) in
    record {
      entry = r;
      result_ok = refl;
      named = refl;
      valid = omega (arith, w.lasting);
      held = after.held;
      service = record {
        store = after.store;
        bound = omega (arith, after.bound, after.limit);
        room = omega (arith, w.room, after.limit);
        lasting = w.lasting;
        pool = w.pool;
        inside = λ q h. elim (after.others q h) [
          | inl e ↦ subst (λ (t : FakeIpRecord). InPool v.pool t.address) (sym e) here
          | inr l ↦ w.inside q l
        ];
      };
    }

-- The evicted record's address is free, and it is one of the pool.
evicted-Assigned :
    (now : ℕ) (domain : Text) (v : FakeIpService) (q : FakeIpRecord)
    → IsService v
    → Holds v.store q
    → get domain v.store.by_domain ≡ none
    → Assigned now domain (
      ok q.address,
      assign_address now domain q.address (record v { store = delete_record q v.store }),
    )
unfolding delete_record
evicted-Assigned now domain v q w h a =
    let v' = record v { store = delete_record q v.store } in
    let w' : IsService v' = record {
      store = delete_record-IsStore q v.store w.store h;
      bound = omega (arith, w.bound, length-delete-le q.domain v.store.by_domain);
      room = w.room;
      lasting = w.lasting;
      pool = w.pool;
      inside = λ r l. w.inside r ((delete_found q.domain r.domain r v.store.by_domain l).1);
    } in
    assign_address-Assigned now domain q.address v' w'
      (ground (arith, a, get-delete q.domain domain v.store.by_domain))
      (get-delete_same q.address v.store.by_address) (w.inside q h)

-- A store that holds a record evicts one.
evict_oldest-some :
    (s : FakeIpStore) (r : FakeIpRecord)
    → IsStore s
    → Holds s r
    → (q : FakeIpRecord) × (evict_oldest s ≡ (some q, delete_record q s)) × Holds s q
unfolding evict_oldest
evict_oldest-some s r w h =
    let (d, q, m, f) = oldest_exists s r h in
    let first : oldest s ≡ some q = rw f refl in
    (q, ap (λ o. evict o s) first, (oldest-Holds d q m s w f).0)

Searched-IsService :
    (now : ℕ) (v : FakeIpService) (result : Option Text × FakeIpPool × FakeIpStore)
    → IsService v
    → Searched now v.pool v.store result
    → IsService (record v { pool = result.1; store = result.2 })
Searched-IsService now v result w s = record {
  store = s.keeps.store;
  bound = omega (arith, s.keeps.bound, s.keeps.limit, w.bound);
  room = omega (arith, s.keeps.limit, w.room);
  lasting = w.lasting;
  pool = s.pool;
  inside = λ r h.
      (let (c, m, e) = w.inside r (s.keeps.old r h) in
        (
          c,
          omega (arith, m, s.same_capacity),
          e ∙ ap (λ n. number_to_ipv4 (n + c)) (sym s.same_first),
        ));
}

assign_searched-Assigned :
    (now : ℕ) (domain : Text) (v : FakeIpService) (result : Option Text × FakeIpPool × FakeIpStore)
    → IsService v
    → get domain v.store.by_domain ≡ none
    → Searched now v.pool v.store result
    → Assigned now domain (assign_searched now domain v result)
assign_searched-Assigned now domain v (some address, pool, s) w a found =
    let ((c, m, f), b) = found.free address refl in
    assign_address-Assigned now domain address (record v { pool = pool; store = s })
      (Searched-IsService now v (some address, pool, s) w found) (Keeps-absent domain found.keeps a)
      b
      (
        c,
        omega (arith, m, found.same_capacity),
        f ∙ ap (λ n. number_to_ipv4 (n + c)) (sym found.same_first),
      )
assign_searched-Assigned now domain v (none, pool, s) w a found =
    let (r, h) = found.full refl in
    let (q, f, held) = evict_oldest-some s r found.keeps.store h in
    let v' = record v { pool = pool; store = s } in
    subst (λ t. Assigned now domain (assign_evicted now domain v' t)) (sym f)
      (evicted-Assigned now domain v' q (Searched-IsService now v (none, pool, s) w found) held
        (Keeps-absent domain found.keeps a))

assign_new-Assigned :
    (now : ℕ) (domain : Text) (v : FakeIpService)
    → IsService v
    → get domain v.store.by_domain ≡ none
    → Assigned now domain (assign_new now domain v)
unfolding assign_new
assign_new-Assigned now domain v w a =
    assign_searched-Assigned now domain v (next (has_address now) v.pool v.store) w a
      (next-Searched now v.pool v.store w.pool w.store)

assigned_after-Assigned :
    (now : ℕ) (domain : Text) (v : FakeIpService) (result : Option FakeIpRecord × FakeIpStore)
    → IsService v
    → Lookup now v.store (get domain v.store.by_domain) result
    → Assigned now domain (assigned_after now domain v result)
unfolding delete_record
assigned_after-Assigned now domain v result w look = go look
  where
    keeps : Keeps now v.store (result.1)
    keeps = Lookup-Keeps w.store (held_domain v.store w.store domain) look

    service : IsService (record v { store = result.1 })
    service = Keeps-IsService now v (result.1) w keeps

    chosen :
        (p : Option FakeIpRecord × FakeIpStore)
        → result ≡ p
        → Assigned now domain (assigned_after now domain v p)
        → Assigned now domain (assigned_after now domain v result)
    chosen p e = subst (λ t. Assigned now domain (assigned_after now domain v t)) (sym e)

    gone :
        (r : FakeIpRecord)
        → r.domain ≡ domain
        → get domain ((delete_record r v.store).by_domain) ≡ none
    gone r p =
        ap (λ k. get k (delete r.domain v.store.by_domain)) (sym p)
        ∙ get-delete_same r.domain v.store.by_domain

    go :
        Lookup now v.store (get domain v.store.by_domain) result
        → Assigned now domain (assigned_after now domain v result)
    go (absent f e) = chosen (none, v.store) e (assign_new-Assigned now domain v w f)
    go (expired r f m e) =
        (let s = delete_record r v.store in
          chosen (none, s) e
            (assign_new-Assigned now domain (record v { store = s })
              (subst
                (λ (t : Option FakeIpRecord × FakeIpStore). IsService (record v { store = t.1 })) e
                service)
              (gone r ((w.store.of_domain domain r f).0))))
    go (hit r f m e) =
        (let s = touch_record r v.store in
          let named = (w.store.of_domain domain r f).0 in
          let l = held_domain v.store w.store domain r f in
          chosen (some r, s) e
            (record {
              entry = r;
              result_ok = refl;
              named = named;
              valid = m;
              held = (touch_record-Holds r r v.store l).1 l;
              service =
                  subst
                    (λ (t : Option FakeIpRecord × FakeIpStore).
                      IsService (record v { store = t.1 }))
                    e service;
            }))

pub assign-Assigned :
    (lower : Text → Text) (now : ℕ) (domain : Text) (v : FakeIpService)
    → IsService v
    → Assigned now (lower domain) (assign lower now domain v)
unfolding assign
assign-Assigned lower now domain v w =
    assigned_after-Assigned now (lower domain) v (get_by_domain now (lower domain) v.store) w
      (get_by_domain-Lookup now (lower domain) v.store)
