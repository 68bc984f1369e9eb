-- ===== src/Core/UdpSessions.antt =====
-- core/udpSessionManager.ts and transport/udpSession.ts. The map holds the sessions that are open; a
-- method on the session of an id changes it there. `timers` are the timers that are set, each with
-- the id that its callback releases; a `close` callback is a handle, and `closed` collects those that
-- were called, after their session left the map. Times are arguments; the period of the timers and
-- the log are left out. `stop` is `closeAll`.
pub mod Timers
pub mod Sound
pub mod Closing
mod Tests
use sepigs.Base.{
  ℕ, ◌+◌, String, Bool, true, Option, none, some, List, [], ◌∷◌, ◌++◌, map, leb, if◌then◌else◌,
  nat_eq, string_eq, length,
}
use sepigs.Base.Table.{Table, get, put, delete}
use sepigs.Protocol.Destination.{Destination}
use sepigs.Core.Stats.{Stats, open_udp_session, close_udp_session, record_udp_error}

pub record UdpSession : Type 0 where
  pub id : String
  pub source : String × ℕ
  pub started_at : ℕ
  pub last_activity_at : ℕ
  pub destination : Option Destination
  pub packets_upload : ℕ
  pub packets_download : ℕ
  pub bytes_upload : ℕ
  pub bytes_download : ℕ

abbrev pub new_session : String → String × ℕ → ℕ → UdpSession
new_session id source now = record {
  id = id;
  source = source;
  started_at = now;
  last_activity_at = now;
  destination = none;
  packets_upload = 0;
  packets_download = 0;
  bytes_upload = 0;
  bytes_download = 0;
}

abbrev pub upload : Destination → ℕ → ℕ → UdpSession → UdpSession
upload d bytes now s = record s {
  destination = some d;
  last_activity_at = now;
  packets_upload = s.packets_upload + 1;
  bytes_upload = s.bytes_upload + bytes;
}

abbrev pub download : ℕ → ℕ → UdpSession → UdpSession
download bytes now s = record s {
  last_activity_at = now;
  packets_download = s.packets_download + 1;
  bytes_download = s.bytes_download + bytes;
}

pub record ManagedUdpSession : Type 0 where
  pub session : UdpSession
  pub close : ℕ
  pub timer : ℕ

pub record UdpSessionManager : Type 0 where
  pub max_sessions : ℕ
  pub stats : Stats
  pub sessions : Table String ManagedUdpSession
  pub timers : Table ℕ String
  pub next_timer : ℕ
  pub closed : List ℕ

abbrev pub new_manager : ℕ → Stats → UdpSessionManager
new_manager most stats = record {
  max_sessions = most;
  stats = stats;
  sessions = [];
  timers = [];
  next_timer = 0;
  closed = [];
}

-- `createTimer`: the timer's handle and the manager in which it is set.
abbrev pub create_timer : String → UdpSessionManager → ℕ × UdpSessionManager
create_timer id m = (
  m.next_timer,
  record m { timers = put m.next_timer id m.timers; next_timer = m.next_timer + 1 },
)

abbrev pub clear_timeout : ℕ → UdpSessionManager → UdpSessionManager
clear_timeout timer m = record m { timers = delete timer m.timers }

-- `open` behind the test of the bound.
unfoldable pub open_found :
    String
    → String × ℕ
    → ℕ
    → ℕ
    → UdpSessionManager
    → Option ManagedUdpSession
    → UdpSessionManager × Option UdpSession
open_found id source close now m (some existing) = (m, some existing.session)
open_found id source close now m none =
    let (timer, after) = create_timer id m in
    let session = new_session id source now in
    (
      record after {
        sessions =
            put id (record { session = session; close = close; timer = timer }) after.sessions;
        stats = open_udp_session after.stats;
      },
      some session,
    )

unfoldable pub open_session :
    String → String × ℕ → ℕ → ℕ → UdpSessionManager → UdpSessionManager × Option UdpSession
open_session id source close now m =
    if leb m.max_sessions (length m.sessions)
    then (record m { stats = record_udp_error m.stats }, none)
    else open_found id source close now m (get id m.sessions)

unfoldable pub touch_found :
    String → UdpSessionManager → Option ManagedUdpSession → UdpSessionManager
touch_found id m none = m
touch_found id m (some managed) =
    let (timer, after) = create_timer id (clear_timeout managed.timer m) in
    record after { sessions = put id (record managed { timer = timer }) after.sessions }

abbrev pub touch : String → UdpSessionManager → UdpSessionManager
touch id m = touch_found id m (get id m.sessions)

unfoldable pub release_found :
    String → Bool → UdpSessionManager → Option ManagedUdpSession → UdpSessionManager
release_found id invoke m none = m
release_found id invoke m (some managed) = record m {
  sessions = delete id m.sessions;
  timers = delete managed.timer m.timers;
  stats = close_udp_session m.stats;
  closed = if invoke then m.closed ++ managed.close ∷ [] else m.closed;
}

abbrev pub release : String → Bool → UdpSessionManager → UdpSessionManager
release id invoke m = release_found id invoke m (get id m.sessions)

abbrev pub record_error : UdpSessionManager → UdpSessionManager
record_error m = record m { stats = record_udp_error m.stats }

-- `list`: a snapshot is the session's fields.
abbrev pub list : UdpSessionManager → List UdpSession
list m = map (λ (e : String × ManagedUdpSession). e.1.session) m.sessions

unfoldable pub release_each : List String → UdpSessionManager → UdpSessionManager
release_each [] m = m
release_each (id ∷ ids) m = release_each ids (release id true m)

unfoldable pub close_all : UdpSessionManager → UdpSessionManager
close_all m = release_each (map (λ (e : String × ManagedUdpSession). e.0) m.sessions) m

-- The callback of a timer runs once, and only while the timer is set.
unfoldable pub fire_found : ℕ → UdpSessionManager → Option String → UdpSessionManager
fire_found timer m none = m
fire_found timer m (some id) = release id true (clear_timeout timer m)

abbrev pub fire : ℕ → UdpSessionManager → UdpSessionManager
fire timer m = fire_found timer m (get timer m.timers)

-- A method call on the session of an id.
unfoldable pub update_found :
    String
    → (UdpSession → UdpSession)
    → UdpSessionManager
    → Option ManagedUdpSession
    → UdpSessionManager
update_found id f m none = m
update_found id f m (some managed) = record m {
  sessions = put id (record managed { session = f managed.session }) m.sessions;
}

abbrev pub update : String → (UdpSession → UdpSession) → UdpSessionManager → UdpSessionManager
update id f m = update_found id f m (get id m.sessions)

pub data Call : Type 0 where
  opens : (id : String) (source : String × ℕ) (close now : ℕ) → Call
  touches : (id : String) → Call
  releases : (id : String) (invoke : Bool) → Call
  uploads : (id : String) (to : Destination) (bytes now : ℕ) → Call
  downloads : (id : String) (bytes now : ℕ) → Call
  fires : (timer : ℕ) → Call
  records_error closes_all : Call

abbrev pub step : Call → UdpSessionManager → UdpSessionManager
step (opens id source close now) m = (open_session id source close now m).0
step (touches id) m = touch id m
step (releases id invoke) m = release id invoke m
step (uploads id to bytes now) m = update id (upload to bytes now) m
step (downloads id bytes now) m = update id (download bytes now) m
step (fires timer) m = fire timer m
step records_error m = record_error m
step closes_all m = close_all m

unfoldable pub run : List Call → UdpSessionManager → UdpSessionManager
run [] m = m
run (c ∷ cs) m = run cs (step c m)
