-- ===== src/Core/UdpSessions/Sound.antt =====
-- core/udpSessionManager.ts: what each call keeps of the sessions, timers and counters.
use sepigs.Base.{
  ℕ, ◌+◌, ◌≤◌, String, ◌≡◌, refl, sym, ap, ◌∙◌, subst, inl, inr, Bool, true, Option, none, some,
  List, [], ◌∷◌, ◌++◌, arith, leb, nat_eq, string_eq, Bool-cases, length,
}
use sepigs.Base.Table.{
  Table, get, put, delete, IsKeyed, length-put, length-delete, delete_absent, get-delete_same,
}
use sepigs.Core.Stats.{Stats, open_udp_session, close_udp_session, record_udp_error}
use sepigs.Core.UdpSessions.{
  UdpSession, ManagedUdpSession, UdpSessionManager, new_manager, clear_timeout, open_found,
  open_session, touch_found, release_found, release, release_each, close_all, fire_found,
  update_found, Call, opens, touches, releases, uploads, downloads, fires, records_error,
  closes_all, step, run,
}
use sepigs.Core.UdpSessions.Timers.{
  IsTimed, add-IsTimed, change-IsTimed, remove-IsTimed, rearm-IsTimed,
}

pub record IsSound (m : UdpSessionManager) : Type 0 where
  pub timed : IsTimed m.sessions m.timers m.next_timer
  pub counted : length m.sessions ≡ m.stats.udp_sessions_active
  pub within : length m.sessions ≤ m.max_sessions

-- A timer that runs is no longer set: to clear it again changes nothing.
delete_twice : (t : ℕ) (timers : Table ℕ String) → delete t (delete t timers) ≡ delete t timers
delete_twice t timers = delete_absent t (delete t timers) (get-delete_same t timers)

open_found-IsSound :
    (id : String) (source : String × ℕ) (close now : ℕ) (m : UdpSessionManager)
    (found : Option ManagedUdpSession)
    → get id m.sessions ≡ found
    → length m.sessions + 1 ≤ m.max_sessions
    → IsSound m
    → IsSound (open_found id source close now m found).0
unfolding open_found open_udp_session
open_found-IsSound id source close now m (some s) e room v = v
open_found-IsSound id source close now m none e room v =
    let longer : (s : ManagedUdpSession) → length (put id s m.sessions) ≡ length m.sessions + 1 =
      λ s. ground (arith, length-put id s m.sessions, e) in
    record {
      timed = add-IsTimed id _ m.sessions m.timers m.next_timer e refl v.timed;
      counted = longer _ ∙ ap (λ n. n + 1) v.counted;
      within = subst (λ n. n ≤ m.max_sessions) (sym (longer _)) room;
    }

open-IsSound :
    (id : String) (source : String × ℕ) (close now : ℕ) (m : UdpSessionManager)
    → IsSound m
    → IsSound (open_session id source close now m).0
unfolding open_session record_udp_error
open-IsSound id source close now m v = elim (Bool-cases (leb m.max_sessions (length m.sessions))) [
  | inl full ↦ rw full (record { timed = v.timed; counted = v.counted; within = v.within })
  | inr room ↦
      rw room (open_found-IsSound id source close now m (get id m.sessions) refl (ground arith) v)
]

touch_found-IsSound :
    (id : String) (m : UdpSessionManager) (found : Option ManagedUdpSession)
    → get id m.sessions ≡ found
    → IsSound m
    → IsSound (touch_found id m found)
unfolding touch_found
touch_found-IsSound id m none e v = v
touch_found-IsSound id m (some s) e v = record {
  timed = rearm-IsTimed id s _ m.sessions m.timers m.next_timer e refl v.timed;
  counted =
      ground (arith, v.counted, length-put id (record s { timer = m.next_timer }) m.sessions, e);
  within =
      ground (arith, v.within, length-put id (record s { timer = m.next_timer }) m.sessions, e);
}

release_found-IsSound :
    (id : String) (invoke : Bool) (m : UdpSessionManager) (found : Option ManagedUdpSession)
    → get id m.sessions ≡ found
    → IsSound m
    → IsSound (release_found id invoke m found)
unfolding release_found close_udp_session
release_found-IsSound id invoke m none e v = v
release_found-IsSound id invoke m (some s) e v = record {
  timed = remove-IsTimed id s m.sessions m.timers m.next_timer e v.timed;
  counted = ground (arith, v.counted, length-delete id m.sessions v.timed.keyed, e);
  within = ground (arith, v.within, length-delete id m.sessions v.timed.keyed, e);
}

update_found-IsSound :
    (id : String) (f : UdpSession → UdpSession) (m : UdpSessionManager)
    (found : Option ManagedUdpSession)
    → get id m.sessions ≡ found
    → IsSound m
    → IsSound (update_found id f m found)
unfolding update_found
update_found-IsSound id f m none e v = v
update_found-IsSound id f m (some s) e v = record {
  timed = change-IsTimed id s _ m.sessions m.timers m.next_timer e refl v.timed;
  counted =
      ground (arith, v.counted, length-put id (record s { session = f s.session }) m.sessions, e);
  within =
      ground (arith, v.within, length-put id (record s { session = f s.session }) m.sessions, e);
}

pub release-IsSound :
    (id : String) (invoke : Bool) (m : UdpSessionManager)
    → IsSound m
    → IsSound (release id invoke m)
release-IsSound id invoke m v = release_found-IsSound id invoke m (get id m.sessions) refl v

pub release_each-IsSound :
    (ids : List String) (m : UdpSessionManager) → IsSound m → IsSound (release_each ids m)
unfolding release_each
release_each-IsSound [] m v = v
release_each-IsSound (id ∷ ids) m v =
    release_each-IsSound ids (release id true m) (release-IsSound id true m v)

-- A timer that is set is its session's: that it runs is a release.
fire_release :
    (t : ℕ) (id : String) (m : UdpSessionManager) (found : Option ManagedUdpSession)
    → get id m.sessions ≡ found
    → get t m.timers ≡ some id
    → IsSound m
    → release_found id true (clear_timeout t m) found ≡ release_found id true m found
unfolding release_found
fire_release t id m none e armed v = absurd (ground (arith, v.timed.owned t id armed, e))
fire_release t id m (some s) e armed v =
    let same : s.timer ≡ t = ground (arith, v.timed.owned t id armed, e) in
    let cleared : delete s.timer (delete t m.timers) ≡ delete s.timer m.timers =
      ap (λ a. delete s.timer (delete a m.timers)) (sym same) ∙ delete_twice s.timer m.timers in
    ap
      (λ (a : Table ℕ String). record m {
        sessions = delete id m.sessions;
        timers = a;
        stats = close_udp_session m.stats;
        closed = m.closed ++ s.close ∷ [];
      })
      cleared

fire_found-IsSound :
    (t : ℕ) (m : UdpSessionManager) (found : Option String)
    → get t m.timers ≡ found
    → IsSound m
    → IsSound (fire_found t m found)
unfolding fire_found
fire_found-IsSound t m none e v = v
fire_found-IsSound t m (some id) e v =
    subst IsSound (sym (fire_release t id m (get id m.sessions) refl e v))
      (release-IsSound id true m v)

step-IsSound : (c : Call) (m : UdpSessionManager) → IsSound m → IsSound (step c m)
unfolding close_all record_udp_error
step-IsSound (opens id source close now) m v = open-IsSound id source close now m v
step-IsSound (touches id) m v = touch_found-IsSound id m (get id m.sessions) refl v
step-IsSound (releases id invoke) m v = release-IsSound id invoke m v
step-IsSound (uploads id to bytes now) m v = update_found-IsSound id _ m (get id m.sessions) refl v
step-IsSound (downloads id bytes now) m v = update_found-IsSound id _ m (get id m.sessions) refl v
step-IsSound (fires t) m v = fire_found-IsSound t m (get t m.timers) refl v
step-IsSound records_error m v = record { timed = v.timed; counted = v.counted; within = v.within }
step-IsSound closes_all m v = release_each-IsSound _ m v

pub calls-IsSound : (cs : List Call) (m : UdpSessionManager) → IsSound m → IsSound (run cs m)
unfolding run
calls-IsSound [] m v = v
calls-IsSound (c ∷ cs) m v = calls-IsSound cs (step c m) (step-IsSound c m v)

pub new-IsSound :
    (most : ℕ) (stats : Stats) → stats.udp_sessions_active ≡ 0 → IsSound (new_manager most stats)
unfolding get IsKeyed
new-IsSound most stats h = record {
  timed = record {
    keyed = tt;
    armed = λ j t p. absurd (cc p);
    owned = λ t j p. absurd (cc p);
    fresh = λ t p. refl;
  };
  counted = sym h;
  within = omega arith;
}
