-- ===== src/Core/Connections/Invariant.antt =====
-- core/connectionManager.ts: its map and objects against the counters, on any run.
use sepigs.Base.{
  ℕ, ◌+◌, ◌-◌, ◌≤◌, String, ◌≡◌, refl, inl, inr, Bool, true, false, none, some, List, [], ◌∷◌, ◌++◌,
  arith, leb, ◌==◌, if◌then◌else◌, nat_eq, string_eq, Bool-cases, Option-cases, length, any,
}
use sepigs.Base.Table.{
  Table, get, put, delete, IsKeyed, get-put, get-delete, put-IsKeyed, delete-IsKeyed, length-put,
  length-delete,
}
use sepigs.Core.Limiter.{ResourceLimiter, try_acquire_connection, release_connection}
use sepigs.Core.Stats.{Stats}
use sepigs.Core.Stats
use sepigs.Core.Connections.{
  Manager, Options, Connection, init, is_open, fresh_connection, closed_with, touched,
  established_of, update, finalize, accept, set_destination, mark_established, attach_remote_socket,
  touch, add_upload_bytes, add_download_bytes, close, close_connection, close_each, close_all,
  sockets_of,
}
use sepigs.Core.Connections.Events.{
  Event, accepts, sets_destination, marks_established, touches, attaches, uploads, downloads,
  closes, closes_connection, closes_all, socket_closed, timer_fired, socket_close, timer_fire, step,
  run,
}

abbrev pub open_at : ℕ → Table ℕ Connection → Bool
open_at id objects = elim (get id objects) [ none ↦ false | some c ↦ is_open c.state ]

-- The map holds the open connections, each under its own id, and ids are not reused.
pub record Registry (objects : Table ℕ Connection) (connections : Table ℕ ℕ) (next_id : ℕ)
    : Type 0 where
  pub keyed : IsKeyed connections
  pub named : (id : ℕ) (c : Connection) → get id objects ≡ some c → c.id ≡ id
  pub fresh : (id : ℕ) → next_id ≤ id → get id objects ≡ none
  pub registered : (id : ℕ) → get id connections ≡ (if open_at id objects then some id else none)

pub record Counts (stats : Stats) (limiter : ResourceLimiter) (live : ℕ) : Type 0 where
  pub admitted : limiter.active_connections ≡ live
  pub active : stats.active_connections ≡ live
  pub total : stats.total_connections ≡ stats.active_connections + stats.closed_connections
  pub rejected : limiter.rejected_connections ≡ stats.rejected_connections
  pub within : limiter.active_connections ≤ limiter.max_connections

pub record Inv (m : Manager) : Type 0 where
  pub registry : Registry m.objects m.connections m.next_id
  pub counts : Counts m.stats m.limiter (length m.connections)

-- A write to an object that keeps its id and its being open.
pub store-Registry :
    (id : ℕ) (c c' : Connection) (objects : Table ℕ Connection) (connections : Table ℕ ℕ) (next : ℕ)
    → get id objects ≡ some c
    → c'.id ≡ c.id
    → is_open c'.state ≡ is_open c.state
    → Registry objects connections next
    → Registry (put id c' objects) connections next
store-Registry id c c' objects connections next found same_id same_open r = record {
  keyed = r.keyed;
  named = λ j d h. ground (arith, get-put id j c' objects, r.named j d, r.named id c found);
  fresh = λ j h. ground (arith, get-put id j c' objects, r.fresh j h, r.fresh id);
  registered = λ j. ground (arith, get-put id j c' objects, r.registered j);
}

add-Registry :
    (c : Connection) (objects : Table ℕ Connection) (connections : Table ℕ ℕ) (next : ℕ)
    → c.id ≡ next
    → is_open c.state ≡ true
    → Registry objects connections next
    → Registry (put next c objects) (put next next connections) (next + 1)
add-Registry c objects connections next own opened r = record {
  keyed = put-IsKeyed next next connections r.keyed;
  named = λ j d h. ground (arith, get-put next j c objects, r.named j d);
  fresh = λ j h. ground (arith, get-put next j c objects, r.fresh j);
  registered = λ j.
      ground (arith, get-put next j c objects, get-put next j next connections, r.registered j);
}

close-Registry :
    (id : ℕ) (c' : Connection) (objects : Table ℕ Connection) (connections : Table ℕ ℕ) (next : ℕ)
    → open_at id objects ≡ true
    → c'.id ≡ id
    → is_open c'.state ≡ false
    → Registry objects connections next
    → Registry (put id c' objects) (delete id connections) next
close-Registry id c' objects connections next opened own shut r = record {
  keyed = delete-IsKeyed id connections r.keyed;
  named = λ j d h. ground (arith, get-put id j c' objects, r.named j d);
  fresh = λ j h. ground (arith, get-put id j c' objects, r.fresh j h, r.fresh id);
  registered =
      λ j. ground (arith, get-put id j c' objects, get-delete id j connections, r.registered j);
}

accept-Inv : (o : Options) (now : ℕ) (m : Manager) → Inv m → Inv (accept o now m).0
unfolding accept try_acquire_connection Stats.start_connection Stats.reject_connection
accept-Inv o now m v =
    elim (Bool-cases (leb m.limiter.max_connections m.limiter.active_connections)) [
      | inl full ↦ record {
        registry = ground (arith, v.registry);
        counts = ground (arith, v.counts);
      }
      | inr room ↦
          rw (room, accept, try_acquire_connection)
            (record {
              registry =
                  add-Registry (fresh_connection m.next_id o now) m.objects m.connections m.next_id
                    refl refl v.registry;
              counts = ground (
                arith,
                v.counts,
                length-put m.next_id m.next_id m.connections,
                v.registry.registered m.next_id,
                v.registry.fresh m.next_id,
              );
            })
    ]

-- A method that keeps the id and the openness of its object.
abbrev Keeps : (Connection → Connection) → Type 0
Keeps f = (c : Connection) → ((f c).id ≡ c.id) × (is_open (f c).state ≡ is_open c.state)

touched-Keeps : Keeps (λ c. touched c c.state)
touched-Keeps c = ground arith

established_of-Keeps : Keeps (λ c. established_of c c.state)
established_of-Keeps c = ground arith

update-Inv :
    (id : ℕ) (f : Connection → Connection) (m : Manager) → Keeps f → Inv m → Inv (update id f m)
update-Inv id f m k v = elim (Option-cases (get id m.objects)) [
  | inl e ↦ rw (e, update) v
  | inr (c, e) ↦
      rw (e, update)
        (record {
          registry =
              store-Registry id c (f c) m.objects m.connections m.next_id e (k c).0 (k c).1
                v.registry;
          counts = v.counts;
        })
]

add_upload_bytes-Inv : (id bytes : ℕ) (m : Manager) → Inv m → Inv (add_upload_bytes id bytes m)
unfolding add_upload_bytes Stats.add_client_to_remote_bytes
add_upload_bytes-Inv id bytes m v = elim (Option-cases (get id m.objects)) [
  | inl e ↦ rw (e, add_upload_bytes) v
  | inr (c, e) ↦
      rw (e, add_upload_bytes)
        (record {
          registry =
              store-Registry id c _ m.objects m.connections m.next_id e (ground arith)
                (ground arith) v.registry;
          counts = ground (arith, v.counts);
        })
]

add_download_bytes-Inv : (id bytes : ℕ) (m : Manager) → Inv m → Inv (add_download_bytes id bytes m)
unfolding add_download_bytes Stats.add_remote_to_client_bytes
add_download_bytes-Inv id bytes m v = elim (Option-cases (get id m.objects)) [
  | inl e ↦ rw (e, add_download_bytes) v
  | inr (c, e) ↦
      rw (e, add_download_bytes)
        (record {
          registry =
              store-Registry id c _ m.objects m.connections m.next_id e (ground arith)
                (ground arith) v.registry;
          counts = ground (arith, v.counts);
        })
]

-- What `close` does to an open connection of a manager that satisfies the invariant.
pub close_open :
    (id : ℕ) (failed : Bool) (reason : String) (now : ℕ) (m : Manager) (c : Connection)
    → Inv m
    → get id m.objects ≡ some c
    → is_open c.state ≡ true
    → close id failed reason now m ≡ record m {
      objects = put id (closed_with reason c) m.objects;
      destroyed = m.destroyed ++ sockets_of c;
      connections = delete id m.connections;
      limiter = release_connection m.limiter;
      stats = Stats.close_connection failed (now - c.start_time) m.stats;
    }
unfolding close finalize
close_open id failed reason now m c v e o =
    ground (arith, v.registry.named id c e, v.registry.registered id)

pub open_object :
    (id : ℕ) (objects : Table ℕ Connection)
    → open_at id objects ≡ true
    → (c : Connection) × (get id objects ≡ some c) × (is_open c.state ≡ true)
open_object id objects h = elim (Option-cases (get id objects)) [
  | inl e ↦ ground arith
  | inr (c, e) ↦ (c, e, ground arith)
]

live :
    (id : ℕ) (m : Manager)
    → Inv m
    → open_at id m.objects ≡ true
    → length m.connections ≡ length (delete id m.connections) + 1
live id m v h =
    ground (arith, length-delete id m.connections v.registry.keyed, v.registry.registered id)

release-Counts :
    (s : Stats) (l : ResourceLimiter) (n : ℕ) (failed : Bool) (ms : ℕ)
    → Counts s l (n + 1)
    → Counts (Stats.close_connection failed ms s) (release_connection l) n
unfolding Stats.close_connection release_connection
release-Counts s l n failed ms k = ground arith

-- A call on an unknown or closed connection changes nothing.
pub close_shut :
    (id : ℕ) (failed : Bool) (reason : String) (now : ℕ) (m : Manager)
    → open_at id m.objects ≡ false
    → close id failed reason now m ≡ m
unfolding close
close_shut id failed reason now m h = ground arith

pub close-Inv :
    (id : ℕ) (failed : Bool) (reason : String) (now : ℕ) (m : Manager)
    → Inv m
    → Inv (close id failed reason now m)
close-Inv id failed reason now m v = elim (Bool-cases (open_at id m.objects)) [
  | inr shut ↦ rw (close_shut id failed reason now m shut) v
  | inl opened ↦
      let (c, e, o) = open_object id m.objects opened in
      rw (close_open id failed reason now m c v e o) (record {
        registry =
            close-Registry id (closed_with reason c) m.objects m.connections m.next_id opened
              (v.registry.named id c e) refl v.registry;
        counts =
            release-Counts m.stats m.limiter (length (delete id m.connections)) failed _
              (rw (← live id m v opened) v.counts);
      })
]

pub close_each-Inv :
    (ids : List (ℕ × ℕ)) (reason : String) (now : ℕ) (m : Manager)
    → Inv m
    → Inv (close_each ids reason now m)
unfolding close_each
close_each-Inv [] reason now m v = v
close_each-Inv ((id, object) ∷ ids) reason now m v =
    close_each-Inv ids reason now (close object false reason now m)
      (close-Inv object false reason now m v)

close_connection-Inv :
    (id : ℕ) (reason : String) (now : ℕ) (m : Manager)
    → Inv m
    → Inv (close_connection id reason now m).0
unfolding close_connection
close_connection-Inv id reason now m v = elim (Option-cases (get id m.connections)) [
  | inl e ↦ rw (e, close_connection) v
  | inr (object, e) ↦ rw (e, close_connection) (close-Inv object true reason now m v)
]

socket_close-Inv : (id socket now : ℕ) (m : Manager) → Inv m → Inv (socket_close id socket now m)
unfolding socket_close
socket_close-Inv id socket now m v = elim (Option-cases (get id m.objects)) [
  | inl e ↦ rw (e, socket_close) v
  | inr (c, e) ↦ elim (Bool-cases (any (λ s. s == socket) c.socket_cleanups)) [
    | inl heard ↦ rw (e, socket_close, heard) (close-Inv id false _ now m v)
    | inr unheard ↦ rw (e, socket_close, unheard) v
  ]
]

timer_fire-Inv : (id now : ℕ) (m : Manager) → Inv m → Inv (timer_fire id now m)
unfolding timer_fire
timer_fire-Inv id now m v = elim (Option-cases (get id m.objects)) [
  | inl e ↦ rw (e, timer_fire) v
  | inr (c, e) ↦ elim (Option-cases c.timer) [
    | inl off ↦ rw (e, timer_fire, off) v
    | inr (ms, on) ↦ rw (e, timer_fire, on) (close-Inv id true _ now m v)
  ]
]

-- Every call keeps the invariant.
pub step-Inv : (m : Manager) (e : ℕ × Event) → Inv m → Inv (step m e)
unfolding step set_destination mark_established attach_remote_socket touch close_all
step-Inv m (now, accepts o) v = accept-Inv o now m v
step-Inv m (now, sets_destination id d) v = update-Inv id _ m (λ c. (refl, refl)) v
step-Inv m (now, marks_established id) v = update-Inv id _ m established_of-Keeps v
step-Inv m (now, touches id) v = update-Inv id _ m touched-Keeps v
step-Inv m (now, attaches id socket) v = update-Inv id _ m (λ c. (refl, refl)) v
step-Inv m (now, uploads id bytes) v = add_upload_bytes-Inv id bytes m v
step-Inv m (now, downloads id bytes) v = add_download_bytes-Inv id bytes m v
step-Inv m (now, closes id failed reason) v = close-Inv id failed reason now m v
step-Inv m (now, closes_connection id reason) v = close_connection-Inv id reason now m v
step-Inv m (now, closes_all reason) v = close_each-Inv m.connections reason now m v
step-Inv m (now, socket_closed id socket) v = socket_close-Inv id socket now m v
step-Inv m (now, timer_fired id) v = timer_fire-Inv id now m v

pub init-Inv : (most : ℕ) → Inv (init most)
unfolding init IsKeyed get
init-Inv most = record {
  registry = record {
    keyed = tt;
    named = λ id c h. cc;
    fresh = λ id h. refl;
    registered = λ id. refl;
  };
  counts = ground arith;
}

pub run-Inv : (m : Manager) (es : List (ℕ × Event)) → Inv m → Inv (run m es)
unfolding run
run-Inv m [] v = v
run-Inv m (e ∷ es) v = run-Inv (step m e) es (step-Inv m e v)

-- After any calls, in any order, on a new manager: the number of live connections is the length of
-- the manager's map, the limiter's and the counter's; it is at most the limit; every connection that
-- was accepted is live or closed; and the map holds exactly the objects that are not closed.
pub run-init-Inv : (most : ℕ) (es : List (ℕ × Event)) → Inv (run (init most) es)
run-init-Inv most es = run-Inv (init most) es (init-Inv most)
