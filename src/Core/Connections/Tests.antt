-- ===== src/Core/Connections/Tests.antt =====
-- Runs of the connection manager, and the theorems at concrete inputs.
use sepigs.Base.{
  ℕ, ◌+◌, ◌≡◌, refl, ◌↔◌, true, false, none, List, [], ◌∷◌, nat_eq, string_eq, length,
}
use sepigs.Base.Table.{get, put}
use sepigs.Core.Stats
use sepigs.Core.Limiter.{try_acquire_connection}
use sepigs.Core.Connections.{
  Manager, Options, tcp, init, add_upload_bytes, mark_established, accept, close, close_all,
}
use sepigs.Core.Connections.Events.{Event, accepts, marks_established, uploads, closes, step, run}
use sepigs.Core.Connections.Invariant.{Inv, run-init-Inv}
use sepigs.Core.Connections.Bytes.{Balanced, run-init-Balanced}
use sepigs.Core.Connections.Close.{accept_refused_iff, close-close, close_all-empty}

abbrev options : ℕ → Options
options socket = record {
  inbound_tag = "socks";
  protocol = "socks5";
  network = tcp;
  source = none;
  client_socket = socket;
  handshake_timeout_ms = 5000;
  idle_timeout_ms = 60000;
}

abbrev history : List (ℕ × Event)
history =
    (10, accepts (options 71))
    ∷ (11, accepts (options 72))
    ∷ (12, accepts (options 73))
    ∷ (13, marks_established 1)
    ∷ (14, uploads 1 300)
    ∷ (15, closes 2 true "reset")
    ∷ (16, uploads 2 5)
    ∷ []

abbrev busy : Manager
busy = run (init 2) history

history_counts :
    (busy.stats.active_connections ≡ 1)
    × (busy.stats.rejected_connections ≡ 1)
    × (busy.stats.failed_connections ≡ 1)
    × (busy.stats.bytes_client_to_remote ≡ 305)
    × (busy.destroyed ≡ 72 ∷ [])
unfolding run step init add_upload_bytes get close mark_established accept put
    try_acquire_connection Stats.add_client_to_remote_bytes Stats.close_connection
    Stats.reject_connection Stats.start_connection
history_counts = (refl, refl, refl, refl, refl)

run-init-Inv_example : Inv busy
run-init-Inv_example = run-init-Inv 2 history

run-init-Balanced_example : Balanced busy
run-init-Balanced_example = run-init-Balanced 2 history

accept_refused_iff_example :
    (((accept (options 74) 20 busy).1 ≡ none)
      ↔ (length busy.connections ≡ busy.limiter.max_connections))
    × (length busy.connections ≡ busy.limiter.max_connections
        → (accept (options 74) 20 busy).0 ≡ record busy {
          limiter = record (busy.limiter) {
            rejected_connections = busy.limiter.rejected_connections + 1;
          };
          stats = record (busy.stats) {
            rejected_connections = busy.stats.rejected_connections + 1;
          };
        })
accept_refused_iff_example = accept_refused_iff (options 74) 20 busy run-init-Inv_example

close-close_example :
    close 1 false "again" 31 (close 1 true "reset" 30 busy) ≡ close 1 true "reset" 30 busy
close-close_example = close-close 1 true false "reset" "again" 30 31 busy run-init-Inv_example

close_all-empty_example :
    let m' = close_all "engine stop" 40 busy in
    (m'.connections ≡ [])
    × (m'.limiter.active_connections ≡ 0)
    × (m'.stats.active_connections ≡ 0)
    × (m'.stats.closed_connections ≡ m'.stats.total_connections)
close_all-empty_example = close_all-empty "engine stop" 40 busy run-init-Inv_example
