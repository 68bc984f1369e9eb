-- ===== src/Core/Connections/Events.antt =====
-- Whole runs of the connection manager: the calls that inbounds, sockets and timers make.
use sepigs.Base.{
  ℕ, String, Bool, true, false, ◌==◌, if◌then◌else◌, any, none, some, List, [], ◌∷◌, nat_eq,
}
use sepigs.Base.Table.{get}
use sepigs.Core.Connections.{
  Manager, Options, accept, set_destination, mark_established, attach_remote_socket, touch,
  add_upload_bytes, add_download_bytes, close, close_connection, close_all,
}

pub data Event : Type 0 where
  accepts : Options → Event
  sets_destination : ℕ → String × ℕ → Event
  marks_established touches : ℕ → Event
  attaches : ℕ → ℕ → Event
  uploads downloads : ℕ → ℕ → Event
  closes : ℕ → Bool → String → Event
  closes_connection : ℕ → String → Event
  closes_all : String → Event
  -- The close event of a socket, for the connection whose listener it may carry.
  socket_closed : ℕ → ℕ → Event
  timer_fired : ℕ → Event

-- The listener of a client socket and that of a remote one differ in the reason.
unfoldable pub socket_close : ℕ → ℕ → ℕ → Manager → Manager
socket_close id socket now m = elim (get id m.objects) [
  | none ↦ m
  | some c ↦
      if any (λ s. s == socket) c.socket_cleanups
      then close id false
          (if socket == c.client_socket then "client socket closed" else "remote socket closed") now
          m
      else m
]

-- The timer keeps its first callback when it is armed again.
unfoldable pub timer_fire : ℕ → ℕ → Manager → Manager
timer_fire id now m = elim (get id m.objects) [
  | none ↦ m
  | some c ↦ elim c.timer [ none ↦ m | some _ ↦ close id true "handshake timeout" now m ]
]

unfoldable pub step : Manager → ℕ × Event → Manager
unfolding socket_close timer_fire
step m (now, accepts o) = (accept o now m).0
step m (now, sets_destination id d) = set_destination id d m
step m (now, marks_established id) = mark_established id m
step m (now, touches id) = touch id m
step m (now, attaches id socket) = attach_remote_socket id socket m
step m (now, uploads id bytes) = add_upload_bytes id bytes m
step m (now, downloads id bytes) = add_download_bytes id bytes m
step m (now, closes id failed reason) = close id failed reason now m
step m (now, closes_connection id reason) = (close_connection id reason now m).0
step m (now, closes_all reason) = close_all reason now m
step m (now, socket_closed id socket) = socket_close id socket now m
step m (now, timer_fired id) = timer_fire id now m

unfoldable pub run : Manager → List (ℕ × Event) → Manager
run m [] = m
run m (e ∷ es) = run (step m e) es
