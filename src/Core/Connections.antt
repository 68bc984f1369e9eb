-- ===== src/Core/Connections.antt =====
-- core/connectionManager.ts. `String(nextId)` is modelled by the number. `objects` is the store of all
-- connection objects, which inbounds still hold after a close; `connections` is the manager's map,
-- whose values are references to that store. Sockets are handles; `destroyed` collects those on
-- which `closeSocket` was called. A socket's close event and a timer's callback are calls of their own.
pub mod Events
pub mod Invariant
pub mod Bytes
mod Tests
pub mod Close
use sepigs.Base.{
  ℕ, ◌+◌, ◌-◌, String, Bool, true, false, Option, none, some, List, [], ◌∷◌, ◌++◌, if◌then◌else◌,
  nat_eq, string_eq,
}
use sepigs.Base.Table.{Table, get, put, delete}
use sepigs.Core.Limiter.{ResourceLimiter, try_acquire_connection, release_connection}
use sepigs.Core.Limiter
use sepigs.Core.Stats.{Stats}
use sepigs.Core.Stats

pub data ConnectionState : Type 0 where
  handshake established closing closed : ConnectionState

pub data Network : Type 0 where
  tcp udp : Network

pub record Options : Type 0 where
  pub inbound_tag : String
  pub protocol : String
  pub network : Network
  pub source : Option (String × ℕ)
  pub client_socket : ℕ
  pub handshake_timeout_ms : ℕ
  pub idle_timeout_ms : ℕ

pub record Connection : Type 0 where
  pub id : ℕ
  pub inbound_tag : String
  pub protocol : String
  pub network : Network
  pub source : Option (String × ℕ)
  pub start_time : ℕ
  pub idle_timeout_ms : ℕ
  pub state : ConnectionState
  pub destination : Option (String × ℕ)
  pub bytes_upload : ℕ
  pub bytes_download : ℕ
  pub close_reason : Option String
  -- The armed timer's period.
  pub timer : Option ℕ
  pub client_socket : ℕ
  pub remote_socket : Option ℕ
  -- The sockets that carry this connection's close listener.
  pub socket_cleanups : List ℕ

pub record Manager : Type 0 where
  pub stats : Stats
  pub limiter : ResourceLimiter
  pub objects : Table ℕ Connection
  pub connections : Table ℕ ℕ
  pub next_id : ℕ
  pub destroyed : List ℕ

pub init : ℕ → Manager
init most = record {
  stats = Stats.init;
  limiter = Limiter.init most;
  objects = [];
  connections = [];
  next_id = 1;
  destroyed = [];
}

abbrev fresh_connection : ℕ → Options → ℕ → Connection
fresh_connection id o now = record {
  id = id;
  inbound_tag = o.inbound_tag;
  protocol = o.protocol;
  network = o.network;
  source = o.source;
  start_time = now;
  idle_timeout_ms = o.idle_timeout_ms;
  state = handshake;
  destination = none;
  bytes_upload = 0;
  bytes_download = 0;
  close_reason = none;
  timer = some o.handshake_timeout_ms;
  client_socket = o.client_socket;
  remote_socket = none;
  socket_cleanups = o.client_socket ∷ [];
}

pub accept : Options → ℕ → Manager → Manager × Option ℕ
accept o now m =
    let (limiter, admitted) = try_acquire_connection m.limiter in
    if admitted
    then (
      record m {
        limiter = limiter;
        objects = put m.next_id (fresh_connection m.next_id o now) m.objects;
        connections = put m.next_id m.next_id m.connections;
        next_id = m.next_id + 1;
        stats = Stats.start_connection m.stats;
      },
      some m.next_id,
    )
    else (record m { limiter = limiter; stats = Stats.reject_connection m.stats }, none)

-- A method call on the object at `id`; a reference that no `accept` gave out changes nothing.
abbrev update : ℕ → (Connection → Connection) → Manager → Manager
update id f m = elim (get id m.objects) [
  | none ↦ m
  | some c ↦ record m { objects = put id (f c) m.objects }
]

pub set_destination : ℕ → String × ℕ → Manager → Manager
set_destination id d m = update id (λ c. record c { destination = some d }) m

abbrev established_of : Connection → ConnectionState → Connection
established_of c handshake = record c { state = established; timer = some c.idle_timeout_ms }
established_of c _ = c

pub mark_established : ℕ → Manager → Manager
mark_established id m = update id (λ c. established_of c c.state) m

pub attach_remote_socket : ℕ → ℕ → Manager → Manager
attach_remote_socket id socket m =
    update id
      (λ c. record c {
        remote_socket = some socket;
        socket_cleanups = c.socket_cleanups ++ socket ∷ [];
      })
      m

abbrev touched : Connection → ConnectionState → Connection
touched c established = record c { timer = some c.idle_timeout_ms }
touched c _ = c

pub touch : ℕ → Manager → Manager
touch id m = update id (λ c. touched c c.state) m

pub add_upload_bytes : ℕ → ℕ → Manager → Manager
add_upload_bytes id bytes m = elim (get id m.objects) [
  | none ↦ m
  | some c ↦
      let c' = record c { bytes_upload = c.bytes_upload + bytes } in
      record m {
        objects = put id (touched c' c'.state) m.objects;
        stats = Stats.add_client_to_remote_bytes bytes m.stats;
      }
]

pub add_download_bytes : ℕ → ℕ → Manager → Manager
add_download_bytes id bytes m = elim (get id m.objects) [
  | none ↦ m
  | some c ↦
      let c' = record c { bytes_download = c.bytes_download + bytes } in
      record m {
        objects = put id (touched c' c'.state) m.objects;
        stats = Stats.add_remote_to_client_bytes bytes m.stats;
      }
]

pub finalize : Connection → Bool → ℕ → Manager → Manager
finalize c failed now m = elim (get c.id m.connections) [
  | none ↦ m
  | some _ ↦ record m {
    connections = delete c.id m.connections;
    limiter = release_connection m.limiter;
    stats = Stats.close_connection failed (now - c.start_time) m.stats;
  }
]

abbrev is_open : ConnectionState → Bool
is_open handshake = true
is_open established = true
is_open closing = false
is_open closed = false

abbrev sockets_of : Connection → List ℕ
sockets_of c = elim c.remote_socket [
  | none ↦ c.client_socket ∷ []
  | some socket ↦ c.client_socket ∷ socket ∷ []
]

-- The state is `closing` only inside the call, where nothing else runs.
abbrev closed_with : String → Connection → Connection
closed_with reason c = record c {
  state = closed;
  close_reason = some reason;
  timer = none;
  socket_cleanups = [];
}

pub close : ℕ → Bool → String → ℕ → Manager → Manager
unfolding finalize
close id failed reason now m = elim (get id m.objects) [
  | none ↦ m
  | some c ↦
      if is_open c.state
      then finalize (closed_with reason c) failed now (record m {
        objects = put id (closed_with reason c) m.objects;
        destroyed = m.destroyed ++ sockets_of c;
      })
      else m
]

pub close_connection : ℕ → String → ℕ → Manager → Manager × Bool
close_connection id reason now m = elim (get id m.connections) [
  | none ↦ (m, false)
  | some object ↦ (close object true reason now m, true)
]

pub close_each : List (ℕ × ℕ) → String → ℕ → Manager → Manager
close_each [] reason now m = m
close_each ((id, object) ∷ rest) reason now m =
    close_each rest reason now (close object false reason now m)

pub close_all : String → ℕ → Manager → Manager
unfolding close_each
close_all reason now m = close_each m.connections reason now m
