-- ===== src/Core/UdpSessions/Closing.antt =====
-- core/udpSessionManager.ts: `closeAll` behind any sequence of calls.
use sepigs.Base.{
  ℕ, String, ◌≡◌, refl, sym, ap, ◌∙◌, subst, inl, inr, true, none, some, List, [], ◌∷◌, ◌++◌, map,
  nat_eq, string_eq, Option-cases, length, append_assoc, append-nil,
}
use sepigs.Base.Table.{Table, get, delete, IsKeyed, get_head, delete_head}
use sepigs.Core.Stats.{Stats}
use sepigs.Core.UdpSessions.{
  ManagedUdpSession, UdpSessionManager, new_manager, release_found, release, release_each,
  close_all, Call, run,
}
use sepigs.Core.UdpSessions.Timers.{timer_of, IsTimed}
use sepigs.Core.UdpSessions.Sound.{
  IsSound, release-IsSound, release_each-IsSound, calls-IsSound, new-IsSound,
}

-- What is left behind `close_all`: no session and no timer, and every session was closed in turn.
pub record IsClosed (before after : UdpSessionManager) : Type 0 where
  pub no_sessions : after.sessions ≡ []
  pub no_timers : after.timers ≡ []
  pub none_counted : after.stats.udp_sessions_active ≡ 0
  pub all_closed :
      after.closed
      ≡ before.closed ++ map (λ (e : String × ManagedUdpSession). e.1.close) before.sessions

no_entry : (timers : Table ℕ String) → ((t : ℕ) → get t timers ≡ none) → timers ≡ []
no_entry [] h = refl
no_entry ((t, id) ∷ timers) h = absurd (cc (h t, get_head t id timers))

unset :
    (m : UdpSessionManager)
    → m.sessions ≡ []
    → IsTimed m.sessions m.timers m.next_timer
    → (t : ℕ) → get t m.timers ≡ none
unfolding get
unset m e r t = elim (Option-cases (get t m.timers)) [
  | inl absent ↦ absent
  | inr (id, set) ↦ absurd (cc (r.owned t id set, ap (timer_of id) e))
]

released :
    (id : String) (s : ManagedUdpSession) (sessions : Table String ManagedUdpSession)
    (m : UdpSessionManager)
    → m.sessions ≡ (id, s) ∷ sessions
    → IsSound m
    → ((release id true m).sessions ≡ sessions)
      × ((release id true m).closed ≡ m.closed ++ s.close ∷ [])
unfolding release_found
released id s sessions m e v =
    let found : get id m.sessions ≡ some s = ap (get id) e ∙ get_head id s sessions in
    rw found (ap (delete id) e ∙ delete_head id s sessions (subst IsKeyed e v.timed.keyed), refl)

each_released :
    (sessions : Table String ManagedUdpSession) (m : UdpSessionManager)
    → m.sessions ≡ sessions
    → IsSound m
    → let after = release_each (map (λ (e : String × ManagedUdpSession). e.0) sessions) m in
      (after.sessions ≡ [])
      × (after.closed ≡ m.closed ++ map (λ (e : String × ManagedUdpSession). e.1.close) sessions)
unfolding release_each
each_released [] m e v = (e, sym (append-nil m.closed))
each_released ((id, s) ∷ sessions) m e v =
    let (left, called) = released id s sessions m e v in
    let (none_left, all_called) =
      each_released sessions (release id true m) left (release-IsSound id true m v) in
    (
      none_left,
      all_called
          ∙ ap (λ (a : List ℕ). a ++ map (λ (e : String × ManagedUdpSession). e.1.close) sessions)
              called
          ∙ append_assoc m.closed (s.close ∷ []) _,
    )

close_all-IsClosed : (m : UdpSessionManager) → IsSound m → IsClosed m (close_all m)
unfolding close_all
close_all-IsClosed m v =
    let (none_left, all_called) = each_released m.sessions m refl v in
    let w = release_each-IsSound (map (λ (e : String × ManagedUdpSession). e.0) m.sessions) m v in
    record {
      no_sessions = none_left;
      no_timers = no_entry _ (λ t. unset (close_all m) none_left w.timed t);
      none_counted = sym w.counted ∙ ap length none_left;
      all_closed = all_called;
    }

-- On any sequence of calls and timers from a manager without sessions: the sessions are as many as the
-- counter says and at most the bound, each has a timer of its own that is set, and no other timer is set. `close_all` then calls each
-- session's close once, in order, and leaves no session, no timer, and a counter at zero.
pub run-IsSound :
    (calls : List Call) (most : ℕ) (stats : Stats)
    → stats.udp_sessions_active ≡ 0
    → IsSound (run calls (new_manager most stats))
      × IsClosed
          (run calls (new_manager most stats))
          (close_all (run calls (new_manager most stats)))
run-IsSound calls most stats h =
    let v = calls-IsSound calls (new_manager most stats) (new-IsSound most stats h) in
    (v, close_all-IsClosed _ v)
