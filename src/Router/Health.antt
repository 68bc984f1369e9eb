-- ===== src/Router/Health.antt =====
-- router/health.ts.
use sepigs.Base.{
  ℕ, ◌-◌, Bool, not, Option, none, some, List, [], ◌∷◌, ◌++◌, ltb, if◌then◌else◌, nat_eq, string_eq,
  length, drop, filter,
}
use sepigs.Base.Table.{Table, get, put}
use sepigs.Base.Text.{Text, text_key}

pub record HealthSample (L : Type 0) : Type 0 where
  pub tag : Text
  pub ok : Bool
  pub latency_ms : L
  pub timestamp : ℕ

pub record HealthStore (L : Type 0) : Type 0 where
  pub max_samples : ℕ
  pub buckets : Table Text (List (HealthSample L))

-- The counts of a snapshot; its averages are left out.
pub record HealthSnapshot : Type 0 where
  pub samples : ℕ
  pub failures : ℕ
  pub last_probe_at : Option ℕ

module _ {L : Type 0} where
  abbrev pub bucket_of : Option (List (HealthSample L)) → List (HealthSample L)
  bucket_of none = []
  bucket_of (some samples) = samples

  -- `samples.splice(0, samples.length - this.maxSamples)` when there are too many.
  unfoldable pub trimmed : ℕ → List (HealthSample L) → List (HealthSample L)
  trimmed most samples =
      if ltb most (length samples) then drop (length samples - most) samples else samples

  unfoldable pub record_sample : HealthSample L → HealthStore L → HealthStore L
  record_sample sample s = record s {
    buckets =
        put sample.tag (trimmed s.max_samples (bucket_of (get sample.tag s.buckets) ++ sample ∷ []))
          s.buckets;
  }

  -- `snapshot` creates the bucket that it reads.
  abbrev pub with_bucket :
      Text → Option (List (HealthSample L)) → HealthStore L → List (HealthSample L) × HealthStore L
  with_bucket tag none s = ([], record s { buckets = put tag [] s.buckets })
  with_bucket tag (some samples) s = (samples, s)

  unfoldable pub get_bucket : Text → HealthStore L → List (HealthSample L) × HealthStore L
  get_bucket tag s = with_bucket tag (get tag s.buckets) s

  abbrev pub last_at : List (HealthSample L) → Option ℕ
  last_at [] = none
  last_at (s ∷ []) = some s.timestamp
  last_at (s ∷ t ∷ ss) = last_at (t ∷ ss)

  unfoldable pub snapshot_bucket : List (HealthSample L) → HealthSnapshot
  snapshot_bucket samples = record {
    samples = length samples;
    failures = length (filter (λ (s : HealthSample L). not s.ok) samples);
    last_probe_at = last_at samples;
  }

  unfoldable pub snapshot : Text → HealthStore L → HealthSnapshot × HealthStore L
  snapshot tag s = let (samples, after) = get_bucket tag s in (snapshot_bucket samples, after)
