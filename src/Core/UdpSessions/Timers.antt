-- ===== src/Core/UdpSessions/Timers.antt =====
-- core/udpSessionManager.ts: the map of sessions and the timers that are set for it.
use sepigs.Base.{ℕ, ◌+◌, ◌≤◌, String, ◌≡◌, Option, none, some, arith, nat_eq, string_eq}
use sepigs.Base.Table.{
  Table, get, put, delete, IsKeyed, get-put, get-delete, put-IsKeyed, delete-IsKeyed,
}
use sepigs.Core.UdpSessions.{ManagedUdpSession}

abbrev pub timer_of : String → Table String ManagedUdpSession → Option ℕ
timer_of id sessions = elim (get id sessions) [ none ↦ none | some s ↦ some s.timer ]

-- Every session has a timer that is set for it, and no other timer is set.
pub record IsTimed (sessions : Table String ManagedUdpSession) (timers : Table ℕ String) (next : ℕ)
    : Type 0 where
  pub keyed : IsKeyed sessions
  pub armed : (id : String) (t : ℕ) → timer_of id sessions ≡ some t → get t timers ≡ some id
  pub owned : (t : ℕ) (id : String) → get t timers ≡ some id → timer_of id sessions ≡ some t
  pub fresh : (t : ℕ) → next ≤ t → get t timers ≡ none

pub add-IsTimed :
    (id : String) (s : ManagedUdpSession) (sessions : Table String ManagedUdpSession)
    (timers : Table ℕ String) (next : ℕ)
    → get id sessions ≡ none
    → s.timer ≡ next
    → IsTimed sessions timers next
    → IsTimed (put id s sessions) (put next id timers) (next + 1)
add-IsTimed id s sessions timers next absent own r = record {
  keyed = put-IsKeyed id s sessions r.keyed;
  armed = λ j t h. ground (
    arith,
    get-put id j s sessions,
    string_eq.beq_iff id j,
    get-put next t id timers,
    r.armed j t,
    r.fresh next,
    absent,
  );
  owned = λ t j h. ground (
    arith,
    get-put id j s sessions,
    string_eq.beq_iff id j,
    get-put next t id timers,
    r.owned t j,
    r.fresh next,
    absent,
  );
  fresh = λ t h. ground (arith, get-put next t id timers, r.fresh t);
}

pub change-IsTimed :
    (id : String) (s s' : ManagedUdpSession) (sessions : Table String ManagedUdpSession)
    (timers : Table ℕ String) (next : ℕ)
    → get id sessions ≡ some s
    → s'.timer ≡ s.timer
    → IsTimed sessions timers next
    → IsTimed (put id s' sessions) timers next
change-IsTimed id s s' sessions timers next found same r = record {
  keyed = put-IsKeyed id s' sessions r.keyed;
  armed =
      λ j t h. ground (arith, get-put id j s' sessions, string_eq.beq_iff id j, r.armed j t, found);
  owned =
      λ t j h. ground (arith, get-put id j s' sessions, string_eq.beq_iff id j, r.owned t j, found);
  fresh = r.fresh;
}

pub remove-IsTimed :
    (id : String) (s : ManagedUdpSession) (sessions : Table String ManagedUdpSession)
    (timers : Table ℕ String) (next : ℕ)
    → get id sessions ≡ some s
    → IsTimed sessions timers next
    → IsTimed (delete id sessions) (delete s.timer timers) next
remove-IsTimed id s sessions timers next found r = record {
  keyed = delete-IsKeyed id sessions r.keyed;
  armed = λ j t h. ground (
    arith,
    get-delete id j sessions,
    string_eq.beq_iff id j,
    get-delete s.timer t timers,
    r.armed j t,
    r.armed id s.timer,
    found,
  );
  owned = λ t j h. ground (
    arith,
    get-delete id j sessions,
    string_eq.beq_iff id j,
    get-delete s.timer t timers,
    r.owned t j,
    r.armed id s.timer,
    found,
  );
  fresh = λ t h. ground (arith, get-delete s.timer t timers, r.fresh t);
}

pub rearm-IsTimed :
    (id : String) (s s' : ManagedUdpSession) (sessions : Table String ManagedUdpSession)
    (timers : Table ℕ String) (next : ℕ)
    → get id sessions ≡ some s
    → s'.timer ≡ next
    → IsTimed sessions timers next
    → IsTimed (put id s' sessions) (put next id (delete s.timer timers)) (next + 1)
rearm-IsTimed id s s' sessions timers next found own r = record {
  keyed = put-IsKeyed id s' sessions r.keyed;
  armed = λ j t h. ground (
    arith,
    get-put id j s' sessions,
    string_eq.beq_iff id j,
    get-put next t id (delete s.timer timers),
    get-delete s.timer t timers,
    r.armed j t,
    r.armed id s.timer,
    r.fresh next,
    found,
  );
  owned = λ t j h. ground (
    arith,
    get-put id j s' sessions,
    string_eq.beq_iff id j,
    get-put next t id (delete s.timer timers),
    get-delete s.timer t timers,
    r.owned t j,
    r.armed id s.timer,
    r.fresh next,
    found,
  );
  fresh = λ t h.
      ground
        (arith, get-put next t id (delete s.timer timers), get-delete s.timer t timers, r.fresh t);
}
