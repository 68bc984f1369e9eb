-- ===== src/Dns/Generations.antt =====
-- dns/generationStore.ts, with the reference counting of dns/generation.ts. A generation object is named
-- by its id, a handle by its place in the list of all handles. Operations in flight, which
-- singleFlight.ts counts, start and end by calls of their own.
pub mod Handles
mod Tests
use sepigs.Base.{
  ℕ, zero, suc, ◌+◌, ◌-◌, Bool, true, false, not, ◌&&◌, ◌||◌, Option, none, some, List, [], ◌∷◌,
  ◌++◌, ◌==◌, if◌then◌else◌, nat_eq, string_eq, get_elem?, filter, any,
}
use sepigs.Base.Text.{text_key}

pub record DnsGeneration : Type 0 where
  pub query_refs : ℕ
  pub draining : Bool
  pub in_flight : ℕ

abbrev pub fresh_generation : DnsGeneration
fresh_generation = record { query_refs = 0; draining = false; in_flight = 0 }

abbrev pub begin_query : DnsGeneration → DnsGeneration
begin_query g = record g { query_refs = g.query_refs + 1 }

-- `Math.max(0, queryRefs - 1)`.
abbrev pub end_query : DnsGeneration → DnsGeneration
end_query g = record g { query_refs = g.query_refs - 1 }

abbrev pub mark_draining : DnsGeneration → DnsGeneration
mark_draining g = record g { draining = true }

abbrev pub mark_active : DnsGeneration → DnsGeneration
mark_active g = record g { draining = false }

abbrev pub is_releasable : DnsGeneration → Bool
is_releasable g = g.draining && g.query_refs == 0 && g.in_flight == 0

pub record GenerationHandle : Type 0 where
  pub generation : ℕ
  pub released : Bool

pub record GenerationStore : Type 0 where
  pub active_generation : ℕ
  -- All generation objects.
  pub objects : ℕ → DnsGeneration
  -- The keys of the map `generations`.
  pub generations : List ℕ
  pub handles : List GenerationHandle

abbrev pub update : ℕ → (DnsGeneration → DnsGeneration) → (ℕ → DnsGeneration) → ℕ → DnsGeneration
update k f objects j = if j == k then f (objects j) else objects j

abbrev pub has : ℕ → List ℕ → Bool
has k gs = any (λ j. j == k) gs

abbrev pub add : ℕ → List ℕ → List ℕ
add k gs = if has k gs then gs else gs ++ k ∷ []

abbrev pub new_store : ℕ → GenerationStore
new_store initial = record {
  active_generation = initial;
  objects = λ _. fresh_generation;
  generations = initial ∷ [];
  handles = [];
}

unfoldable pub acquire : GenerationStore → GenerationStore
acquire s = record s {
  objects = update s.active_generation begin_query s.objects;
  handles = s.handles ++ (record { generation = s.active_generation; released = false }) ∷ [];
}

unfoldable pub release_drained : GenerationStore → GenerationStore
release_drained s = record s {
  generations =
      filter (λ k. k == s.active_generation || not (is_releasable (s.objects k))) s.generations;
}

abbrev pub released_at : ℕ → List GenerationHandle → List GenerationHandle
released_at h [] = []
released_at zero (x ∷ xs) = (record x { released = true }) ∷ xs
released_at (suc h) (x ∷ xs) = x ∷ released_at h xs

-- The release of a handle that is held, and that was not released before.
abbrev pub release_open : ℕ → GenerationHandle → GenerationStore → GenerationStore
release_open h x s = release_drained (record s {
  handles = released_at h s.handles;
  objects = update x.generation end_query s.objects;
})

abbrev pub release_found : ℕ → Option GenerationHandle → GenerationStore → GenerationStore
release_found h none s = s
release_found h (some x) s = if x.released then s else release_open h x s

unfoldable pub release : ℕ → GenerationStore → GenerationStore
release h s = release_found h (get_elem? s.handles h) s

unfoldable pub switch_to : ℕ → GenerationStore → GenerationStore
switch_to candidate s = record s {
  objects = update candidate mark_active (update s.active_generation mark_draining s.objects);
  generations = add candidate s.generations;
  active_generation = candidate;
}

unfoldable pub drain : ℕ → GenerationStore → GenerationStore
drain k s = record s {
  objects = update k mark_draining s.objects;
  generations = add k s.generations;
}

unfoldable pub restore : ℕ → ℕ → GenerationStore → GenerationStore
restore old candidate s = release_drained (record s {
  objects = update old mark_active (update candidate mark_draining s.objects);
  generations = add candidate (add old s.generations);
  active_generation = old;
})

unfoldable pub draining : GenerationStore → List ℕ
draining s = filter (λ k. (s.objects k).draining) s.generations

-- What `abortInFlight` aborts ends later, by calls of `end_flight`, when its promise is settled.
unfoldable pub shutdown : GenerationStore → GenerationStore
shutdown s = release_drained s

unfoldable pub start_flight : ℕ → GenerationStore → GenerationStore
start_flight k s = record s {
  objects = update k (λ g. record g { in_flight = g.in_flight + 1 }) s.objects;
}

unfoldable pub end_flight : ℕ → GenerationStore → GenerationStore
end_flight k s = record s {
  objects = update k (λ g. record g { in_flight = g.in_flight - 1 }) s.objects;
}
