-- ===== src/Core/Limiter.antt =====
-- core/resourceLimiter.ts
use sepigs.Base.{ℕ, ◌+◌, ◌-◌, Bool, true, false, ltb, leb, if◌then◌else◌}

pub record ResourceLimiter : Type 0 where
  pub max_connections : ℕ
  pub active_connections : ℕ
  pub rejected_connections : ℕ

abbrev pub init : ℕ → ResourceLimiter
init most = record { max_connections = most; active_connections = 0; rejected_connections = 0 }

unfoldable pub try_acquire_connection : ResourceLimiter → ResourceLimiter × Bool
try_acquire_connection l =
    if leb l.max_connections l.active_connections
    then (record l { rejected_connections = l.rejected_connections + 1 }, false)
    else (record l { active_connections = l.active_connections + 1 }, true)

unfoldable pub release_connection : ResourceLimiter → ResourceLimiter
release_connection l =
    if ltb 0 l.active_connections
    then record l { active_connections = l.active_connections - 1 }
    else l
