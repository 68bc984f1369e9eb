-- ===== src/Core/Connections/Close.antt =====
-- core/connectionManager.ts: close, closeAll and refused connections.
use sepigs.Base.{
  ℕ, ◌+◌, String, ◌≡◌, refl, ap, ◌↔◌, inl, inr, Bool, true, false, none, some, List, [], ◌∷◌, arith,
  ◌==◌, if◌then◌else◌, nat_eq, string_eq, Bool-cases, length, any,
}
use sepigs.Base.Table.{Table, get, get-put}
use sepigs.Core.Limiter.{try_acquire_connection}
use sepigs.Core.Stats.{Stats}
use sepigs.Core.Stats
use sepigs.Core.Connections.{Manager, Options, closed_with, accept, close, close_each, close_all}
use sepigs.Core.Connections.Invariant.{
  Inv, open_at, close_open, close_shut, open_object, close-Inv, close_each-Inv,
}

-- A new connection is refused exactly when as many are live as the limit allows, and a refusal leaves
-- all but the two counters of rejections as it was.
pub accept_refused_iff :
    (o : Options) (now : ℕ) (m : Manager)
    → Inv m
    → (((accept o now m).1 ≡ none) ↔ (length m.connections ≡ m.limiter.max_connections))
      × (length m.connections ≡ m.limiter.max_connections
          → (accept o now m).0 ≡ record m {
            limiter = record (m.limiter) {
              rejected_connections = m.limiter.rejected_connections + 1;
            };
            stats = record (m.stats) { rejected_connections = m.stats.rejected_connections + 1 };
          })
unfolding accept try_acquire_connection Stats.reject_connection
accept_refused_iff o now m v = (ground (arith, v.counts), λ full. ground (arith, v.counts))

open_at-close :
    (id j : ℕ) (failed : Bool) (reason : String) (now : ℕ) (m : Manager)
    → Inv m
    → open_at j (close id failed reason now m).objects
      ≡ (if id == j then false else open_at j m.objects)
open_at-close id j failed reason now m v = elim (Bool-cases (open_at id m.objects)) [
  | inr shut ↦ rw (close_shut id failed reason now m shut) (ground arith)
  | inl opened ↦
      let (c, e, o) = open_object id m.objects opened in
      rw (close_open id failed reason now m c v e o)
        (ground (arith, get-put id j (closed_with reason c) m.objects))
]

-- A second close of the same connection, whatever its reason and time, changes nothing: a connection
-- is counted, released and its sockets destroyed once.
pub close-close :
    (id : ℕ) (failed again : Bool) (reason other : String) (now later : ℕ) (m : Manager)
    → Inv m
    → close id again other later (close id failed reason now m) ≡ close id failed reason now m
close-close id failed again reason other now later m v =
    close_shut id again other later (close id failed reason now m)
      (ground (arith, open_at-close id id failed reason now m v))

-- Every open connection is still in the list.
abbrev Covered : List (ℕ × ℕ) → Manager → Type 0
Covered l m = (j : ℕ) → open_at j m.objects ≡ true → any (λ p. p.1 == j) l ≡ true

Covered-close :
    (id object : ℕ) (l : List (ℕ × ℕ)) (reason : String) (now : ℕ) (m : Manager)
    → Inv m
    → Covered ((id, object) ∷ l) m
    → Covered l (close object false reason now m)
Covered-close id object l reason now m v h j o =
    ground (arith, open_at-close object j false reason now m v, h j)

close_each-open_at :
    (l : List (ℕ × ℕ)) (reason : String) (now : ℕ) (m : Manager)
    → Inv m
    → Covered l m
    → (j : ℕ) → open_at j (close_each l reason now m).objects ≡ false
unfolding close_each
close_each-open_at [] reason now m v h j = ground (arith, h j)
close_each-open_at ((id, object) ∷ l) reason now m v h j =
    close_each-open_at l reason now (close object false reason now m)
      (close-Inv object false reason now m v) (Covered-close id object l reason now m v h) j

listed : (j : ℕ) (t : Table ℕ ℕ) → get j t ≡ some j → any (λ p. p.1 == j) t ≡ true
unfolding get
listed j [] h = cc
listed j ((i, w) ∷ t) h = ground (arith, listed j t)

eq-nil_of_get : (t : Table ℕ ℕ) → ((j : ℕ) → get j t ≡ none) → t ≡ []
unfolding get
eq-nil_of_get [] h = refl
eq-nil_of_get ((i, w) ∷ t) h = ground (arith, h i)

-- After `close_all` no connection is live, and the limiter and the counter stand at 0.
pub close_all-empty :
    (reason : String) (now : ℕ) (m : Manager)
    → Inv m
    → let m' = close_all reason now m in
      (m'.connections ≡ [])
      × (m'.limiter.active_connections ≡ 0)
      × (m'.stats.active_connections ≡ 0)
      × (m'.stats.closed_connections ≡ m'.stats.total_connections)
unfolding close_all
close_all-empty reason now m v =
    let v' = close_each-Inv m.connections reason now m v in
    let shut =
      close_each-open_at m.connections reason now m v
        (λ j o. listed j m.connections (ground (arith, v.registry.registered j))) in
    let none_left : (close_each m.connections reason now m).connections ≡ [] =
      eq-nil_of_get _ (λ j. ground (arith, v'.registry.registered j, shut j)) in
    (
      none_left,
      omega (arith, v'.counts.admitted, ap length none_left),
      omega (arith, v'.counts.active, ap length none_left),
      omega (arith, v'.counts.active, v'.counts.total, ap length none_left),
    )
