-- ===== src/Config/Sections/Ranges.antt =====
-- The ranges of the numbers that config/schema.ts reads.
use sepigs.Base.{
  ℕ, ◌≤◌, min, max, String, Option, none, some, [], ◌∷◌, ◌++◌, arith, nat_eq, string_eq,
}
use sepigs.Base.Table.{get}
use sepigs.Base.Text.{text_key}
use sepigs.Config.Json.{
  natural, negative, fractional, Json, null, boolean, numeral, text, array, object, Object, entries,
}
use sepigs.Config.Checked.{field, Place, Checked, or_else}
use sepigs.Config.Read.{number_value, optional_number, read_optional_number, section, number_or}
use sepigs.Config.Settings.{LimitConfig, ProbingConfig, default_limits, default_probing}
use sepigs.Config.Sections.{limits_of, probing_of}

abbrev pub InRange : ℕ → ℕ → ℕ → Type 0
InRange min max n = (min ≤ n) × (n ≤ max)

-- A number that is read is in its range.
abbrev pub OptionInRange : ℕ → ℕ → Option ℕ → Type 0
OptionInRange min max none = Unit
OptionInRange min max (some n) = InRange min max n

pub number_value-InRange :
    (place : Place) (min max : ℕ) (v : Option Json)
    → OptionInRange min max (number_value place min max v).value
unfolding number_value
number_value-InRange place min max (some (numeral (natural n))) = ground arith
number_value-InRange place min max (some (numeral (negative n))) = tt
number_value-InRange place min max (some (numeral fractional)) = tt
number_value-InRange place min max none = tt
number_value-InRange place min max (some null) = tt
number_value-InRange place min max (some (boolean b)) = tt
number_value-InRange place min max (some (text t)) = tt
number_value-InRange place min max (some (array js)) = tt
number_value-InRange place min max (some (object ms)) = tt

optional_number-InRange :
    (place : Place) (min max : ℕ) (v : Option Json)
    → OptionInRange min max (optional_number place min max v).value
optional_number-InRange place min max none = tt
optional_number-InRange place min max (some v) = number_value-InRange place min max (some v)

or_else-InRange :
    (min max d : ℕ) (o : Option ℕ)
    → OptionInRange min max o
    → min ≤ d
    → d ≤ max
    → InRange min max (or_else o d)
or_else-InRange min max d none h l u = (l, u)
or_else-InRange min max d (some n) h l u = h

pub number_or-InRange :
    (raw : Object) (k : String) (path : Place) (min max d : ℕ)
    → min ≤ d
    → d ≤ max
    → InRange min max (number_or raw k path min max d).value
unfolding number_or read_optional_number
number_or-InRange raw k path min max d l u =
    or_else-InRange min max d _ (optional_number-InRange (path ++ field k ∷ []) min max (get k raw))
      l u

-- What holds of the default and of every object that is parsed holds of a section.
pub section-either {ℓ κ} :
    {A : Type ℓ} (P : A → Type κ) (d : A) (parse : Object → Checked A) (place : Place)
    (v : Option Json)
    → P d
    → ((raw : Object) → P (parse raw).value)
    → P (section d parse place v).value
unfolding section
section-either P d parse place none h k = h
section-either P d parse place (some null) h k = h
section-either P d parse place (some (boolean b)) h k = h
section-either P d parse place (some (numeral n)) h k = h
section-either P d parse place (some (text t)) h k = h
section-either P d parse place (some (array js)) h k = h
section-either P d parse place (some (object ms)) h k = k (entries ms)

pub record LimitsInRange (l : LimitConfig) : Type 0 where
  pub connect : InRange 1 300000 l.connect_timeout_ms
  pub handshake : InRange 1 300000 l.handshake_timeout_ms
  pub idle : InRange 1 3600000 l.idle_timeout_ms
  pub shutdown : InRange 1 300000 l.shutdown_timeout_ms
  pub header : InRange 1024 1048576 l.max_header_bytes
  pub connections : InRange 1 1000000 l.max_connections
  pub leak : InRange 1000 3600000 l.leak_report_interval_ms
  pub sessions : InRange 1 1000000 l.max_udp_sessions
  pub udp_idle : InRange 100 3600000 l.udp_idle_timeout_ms

pub limits_of-InRange : (path : Place) (raw : Object) → LimitsInRange (limits_of path raw).value
limits_of-InRange path raw = record {
  connect = number_or-InRange raw _ path 1 300000 10000 (omega arith) (omega arith);
  handshake = number_or-InRange raw _ path 1 300000 10000 (omega arith) (omega arith);
  idle = number_or-InRange raw _ path 1 3600000 120000 (omega arith) (omega arith);
  shutdown = number_or-InRange raw _ path 1 300000 5000 (omega arith) (omega arith);
  header = number_or-InRange raw _ path 1024 1048576 65536 (omega arith) (omega arith);
  connections = number_or-InRange raw _ path 1 1000000 10000 (omega arith) (omega arith);
  leak = number_or-InRange raw _ path 1000 3600000 60000 (omega arith) (omega arith);
  sessions = number_or-InRange raw _ path 1 1000000 4096 (omega arith) (omega arith);
  udp_idle = number_or-InRange raw _ path 100 3600000 60000 (omega arith) (omega arith);
}

pub default_limits-InRange : LimitsInRange default_limits
default_limits-InRange = record {
  connect = (omega arith, omega arith);
  handshake = (omega arith, omega arith);
  idle = (omega arith, omega arith);
  shutdown = (omega arith, omega arith);
  header = (omega arith, omega arith);
  connections = (omega arith, omega arith);
  leak = (omega arith, omega arith);
  sessions = (omega arith, omega arith);
  udp_idle = (omega arith, omega arith);
}

pub record ProbingInRange (q : ProbingConfig) : Type 0 where
  pub interval : InRange 100 3600000 q.interval_ms
  pub timeout : InRange 1 300000 q.timeout_ms
  pub concurrency : InRange 1 1000 q.max_concurrency
  pub budget : InRange 1 1000000 q.budget_per_interval
  pub backoff_base : InRange 1 3600000 q.backoff_base_ms
  pub backoff_max : InRange 1 86400000 q.backoff_max_ms

pub probing_of-InRange : (path : Place) (raw : Object) → ProbingInRange (probing_of path raw).value
probing_of-InRange path raw = record {
  interval = number_or-InRange raw _ path 100 3600000 30000 (omega arith) (omega arith);
  timeout = number_or-InRange raw _ path 1 300000 1000 (omega arith) (omega arith);
  concurrency = number_or-InRange raw _ path 1 1000 4 (omega arith) (omega arith);
  budget = number_or-InRange raw _ path 1 1000000 16 (omega arith) (omega arith);
  backoff_base = number_or-InRange raw _ path 1 3600000 1000 (omega arith) (omega arith);
  backoff_max = number_or-InRange raw _ path 1 86400000 60000 (omega arith) (omega arith);
}

pub default_probing-InRange : ProbingInRange default_probing
default_probing-InRange = record {
  interval = (omega arith, omega arith);
  timeout = (omega arith, omega arith);
  concurrency = (omega arith, omega arith);
  budget = (omega arith, omega arith);
  backoff_base = (omega arith, omega arith);
  backoff_max = (omega arith, omega arith);
}
