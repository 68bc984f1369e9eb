-- ===== src/Core/UdpSessions/Tests.antt =====
-- core/udpSessionManager.ts: two sessions under a bound of two, of which one runs into its timer.
use sepigs.Base.{◌≡◌, refl, List, [], ◌∷◌, map, nat_eq, string_eq, String}
use sepigs.Core.Stats
use sepigs.Base.Table.{get, put, delete}
use sepigs.Core.UdpSessions.{
  open_session, open_found, touch_found, release_found, fire_found, update_found, UdpSessionManager,
  ManagedUdpSession, new_manager, Call, opens, touches, downloads, fires, run, close_all,
}
use sepigs.Core.UdpSessions.Sound.{IsSound}
use sepigs.Core.UdpSessions.Closing.{IsClosed, run-IsSound}

abbrev some_calls : List Call
some_calls =
    opens "a" ("10.0.0.1", 5000) 1 100
    ∷ opens "b" ("10.0.0.2", 5000) 2 110
    ∷ opens "c" ("10.0.0.3", 5000) 3 120
    ∷ touches "a"
    ∷ fires 0
    ∷ downloads "b" 40 130
    ∷ fires 1
    ∷ []

abbrev after_some : UdpSessionManager
after_some = run some_calls (new_manager 2 Stats.init)

-- The third is refused, the first timer was replaced, the second runs out.
some_calls_run :
    (map (λ (e : String × ManagedUdpSession). e.0) after_some.sessions ≡ "a" ∷ [])
    × (after_some.timers ≡ (2, "a") ∷ [])
    × (after_some.closed ≡ 2 ∷ [])
    × (after_some.stats.udp_errors_total ≡ 1)
unfolding run fire_found get update_found touch_found open_session open_found put delete
    release_found Stats.close_udp_session Stats.record_udp_error Stats.open_udp_session
some_calls_run = (refl, refl, refl, refl)

run-IsSound_example : IsSound after_some × IsClosed after_some (close_all after_some)
run-IsSound_example = run-IsSound some_calls 2 Stats.init refl
