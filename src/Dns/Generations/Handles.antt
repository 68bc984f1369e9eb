-- ===== src/Dns/Generations/Handles.antt =====
-- dns/generationStore.ts: handles and listed generations, on any calls.
use sepigs.Base.{
  ℕ, zero, suc, ◌+◌, ◌-◌, ◌<◌, ◌≡◌, refl, ap, ◌∙◌, subst, ◌≢◌, inl, inr, Bool, true, false, not,
  ◌&&◌, ◌||◌, Option, none, some, List, [], ◌∷◌, ◌++◌, arith, ◌==◌, if◌then◌else◌, nat_eq,
  string_eq, Bool-cases, if_either, get_elem?, filter,
}
use sepigs.Base.Text.{text_key}
use sepigs.Dns.Generations.{
  DnsGeneration, end_query, mark_draining, mark_active, is_releasable, GenerationHandle,
  GenerationStore, update, has, add, new_store, acquire, release_drained, released_at, release_open,
  release_found, release, switch_to, drain, restore, shutdown, start_flight, end_flight,
}

abbrev is_open : ℕ → GenerationHandle → Bool
is_open k x = x.generation == k && not x.released

-- The handles of a generation that were not released.
abbrev pub open_handles : ℕ → List GenerationHandle → ℕ
open_handles k [] = 0
open_handles k (x ∷ xs) = if is_open k x then open_handles k xs + 1 else open_handles k xs

pub record IsGenerations (s : GenerationStore) : Type 0 where
  pub active : has s.active_generation s.generations ≡ true
  pub counted : (k : ℕ) → (s.objects k).query_refs ≡ open_handles k s.handles
  pub listed : (k : ℕ) → 0 < open_handles k s.handles → has k s.generations ≡ true

has-filter :
    (p : ℕ → Bool) (k : ℕ) (gs : List ℕ) → p k ≡ true → has k gs ≡ true → has k (filter p gs) ≡ true
has-filter p k [] h e = e
has-filter p k (j ∷ gs) h e = ground (arith, has-filter p k gs h, h, e, ap p)

has-append : (k j : ℕ) (gs : List ℕ) → has k (gs ++ j ∷ []) ≡ has k gs || (j == k)
has-append k j [] = ground arith
has-append k j (i ∷ gs) = ground (arith, has-append k j gs)

has-add : (k j : ℕ) (gs : List ℕ) → has k gs ≡ true → has k (add j gs) ≡ true
has-add k j gs h = ground (arith, has-append k j gs, h)

has-add_self : (k : ℕ) (gs : List ℕ) → has k (add k gs) ≡ true
has-add_self k gs = ground (arith, has-append k k gs)

open_handles-append :
    (k g : ℕ) (xs : List GenerationHandle)
    → open_handles k (xs ++ (record { generation = g; released = false }) ∷ [])
      ≡ (if g == k then open_handles k xs + 1 else open_handles k xs)
open_handles-append k g [] = ground arith
open_handles-append k g (x ∷ xs) = ground (arith, open_handles-append k g xs)

open_handles-released_at :
    (k h : ℕ) (xs : List GenerationHandle) (x : GenerationHandle)
    → get_elem? xs h ≡ some x
    → x.released ≡ false
    → open_handles k xs ≡ (
        if x.generation == k
        then open_handles k (released_at h xs) + 1
        else open_handles k (released_at h xs))
open_handles-released_at k h [] x e r = absurd (cc e)
open_handles-released_at k zero (y ∷ xs) x e r = ground (arith, e, r)
open_handles-released_at k (suc h) (y ∷ xs) x e r =
    ground (arith, open_handles-released_at k h xs x e r)

release_drained-IsGenerations :
    (s : GenerationStore) → IsGenerations s → IsGenerations (release_drained s)
unfolding release_drained
release_drained-IsGenerations s w =
    let stays : ℕ → Bool = λ k. k == s.active_generation || not (is_releasable (s.objects k)) in
    record {
      active = has-filter stays s.active_generation s.generations (ground arith) w.active;
      counted = w.counted;
      listed =
          λ k h. has-filter stays k s.generations (ground (arith, h, w.counted k)) (w.listed k h);
    }

acquire-IsGenerations : (s : GenerationStore) → IsGenerations s → IsGenerations (acquire s)
unfolding acquire
acquire-IsGenerations s w = record {
  active = w.active;
  counted = λ k. ground (arith, w.counted k, open_handles-append k s.active_generation s.handles);
  listed = λ k h. elim (Bool-cases (s.active_generation == k)) [
    | inl e ↦
        (let same : s.active_generation ≡ k = ground (arith, e) in
          subst (λ j. has j s.generations ≡ true) same w.active)
    | inr e ↦ w.listed k (ground (arith, h, e, open_handles-append k s.active_generation s.handles))
  ];
}

release-IsGenerations :
    (h : ℕ) (s : GenerationStore) → IsGenerations s → IsGenerations (release h s)
unfolding release
release-IsGenerations h s w = go (get_elem? s.handles h) refl
  where
    opened :
        (x : GenerationHandle)
        → get_elem? s.handles h ≡ some x
        → x.released ≡ false
        → IsGenerations (release_open h x s)
    opened x e r =
        release_drained-IsGenerations
          (record s {
            handles = released_at h s.handles;
            objects = update x.generation end_query s.objects;
          })
          (record {
            active = w.active;
            counted =
                λ k. ground (arith, w.counted k, open_handles-released_at k h s.handles x e r);
            listed =
                λ k p. w.listed k (ground (arith, p, open_handles-released_at k h s.handles x e r));
          })

    go :
        (found : Option GenerationHandle)
        → get_elem? s.handles h ≡ found
        → IsGenerations (release_found h found s)
    go none e = w
    go (some x) e = if_either IsGenerations x.released (λ _. w) (opened x e)

-- Changes of the objects that leave the references.
objects-IsGenerations :
    (s : GenerationStore) (objects : ℕ → DnsGeneration)
    → IsGenerations s
    → ((k : ℕ) → (objects k).query_refs ≡ (s.objects k).query_refs)
    → IsGenerations (record s { objects = objects })
objects-IsGenerations s objects w e = record {
  active = w.active;
  counted = λ k. e k ∙ w.counted k;
  listed = w.listed;
}

-- Another active generation, and more of them listed.
listed-IsGenerations :
    (s : GenerationStore) (active : ℕ) (generations : List ℕ)
    → IsGenerations s
    → has active generations ≡ true
    → ((k : ℕ) → has k s.generations ≡ true → has k generations ≡ true)
    → IsGenerations (record s { active_generation = active; generations = generations })
listed-IsGenerations s active generations w a h = record {
  active = a;
  counted = w.counted;
  listed = λ k p. h k (w.listed k p);
}

pub data Call : Type 0 where
  acquiring releasing_drained shutting_down : Call
  releasing switching marking starting ending : ℕ → Call
  restoring : ℕ → ℕ → Call

unfoldable pub step : Call → GenerationStore → GenerationStore
step acquiring s = acquire s
step releasing_drained s = release_drained s
step shutting_down s = shutdown s
step (releasing h) s = release h s
step (switching k) s = switch_to k s
step (marking k) s = drain k s
step (starting k) s = start_flight k s
step (ending k) s = end_flight k s
step (restoring old candidate) s = restore old candidate s

unfoldable pub run : List Call → GenerationStore → GenerationStore
run [] s = s
run (c ∷ cs) s = run cs (step c s)

step-IsGenerations : (c : Call) (s : GenerationStore) → IsGenerations s → IsGenerations (step c s)
unfolding step switch_to drain restore shutdown start_flight end_flight
step-IsGenerations acquiring s w = acquire-IsGenerations s w
step-IsGenerations releasing_drained s w = release_drained-IsGenerations s w
step-IsGenerations (releasing h) s w = release-IsGenerations h s w
step-IsGenerations shutting_down s w = release_drained-IsGenerations s w
step-IsGenerations (switching k) s w =
    listed-IsGenerations
      (record s {
        objects = update k mark_active (update s.active_generation mark_draining s.objects);
      })
      k (add k s.generations)
      (objects-IsGenerations s
        (update k mark_active (update s.active_generation mark_draining s.objects)) w
        (λ j. ground arith))
      (has-add_self k s.generations) (λ j. has-add j k s.generations)
step-IsGenerations (marking k) s w =
    listed-IsGenerations (record s { objects = update k mark_draining s.objects })
      s.active_generation (add k s.generations)
      (objects-IsGenerations s (update k mark_draining s.objects) w (λ j. ground arith))
      (has-add s.active_generation k s.generations w.active) (λ j. has-add j k s.generations)
step-IsGenerations (starting k) s w =
    objects-IsGenerations s (update k (λ g. record g { in_flight = g.in_flight + 1 }) s.objects) w
      (λ j. ground arith)
step-IsGenerations (ending k) s w =
    objects-IsGenerations s (update k (λ g. record g { in_flight = g.in_flight - 1 }) s.objects) w
      (λ j. ground arith)
step-IsGenerations (restoring old candidate) s w =
    let objects = update old mark_active (update candidate mark_draining s.objects) in
    let generations = add candidate (add old s.generations) in
    release_drained-IsGenerations
      (record s { objects = objects; generations = generations; active_generation = old })
      (listed-IsGenerations (record s { objects = objects }) old generations
        (objects-IsGenerations s objects w (λ j. ground arith))
        (has-add old candidate (add old s.generations) (has-add_self old s.generations))
        (λ j h. has-add j candidate (add old s.generations) (has-add j old s.generations h)))

run-IsGenerations :
    (cs : List Call) (s : GenerationStore) → IsGenerations s → IsGenerations (run cs s)
unfolding run
run-IsGenerations [] s w = w
run-IsGenerations (c ∷ cs) s w = run-IsGenerations cs (step c s) (step-IsGenerations c s w)

-- After any calls on a new store, in any order, the active generation is listed, the references of each
-- generation are its handles that were not released, and a generation with such a handle is listed.
pub run-new_store : (initial : ℕ) (cs : List Call) → IsGenerations (run cs (new_store initial))
run-new_store initial cs =
    run-IsGenerations cs (new_store initial)
      (record { active = ground arith; counted = λ k. refl; listed = λ k h. absurd (omega arith) })

filter-excludes : (p : ℕ → Bool) (k : ℕ) (gs : List ℕ) → p k ≡ false → has k (filter p gs) ≡ false
filter-excludes p k [] h = refl
filter-excludes p k (j ∷ gs) h = ground (arith, filter-excludes p k gs h, h, ap p)

-- When the last handle of a draining generation is released that is not active and has nothing in
-- flight, the generation is no longer listed.
pub release_last :
    (initial : ℕ) (cs : List Call) (h : ℕ) (x : GenerationHandle)
    → let s = run cs (new_store initial) in
      get_elem? s.handles h ≡ some x
      → x.released ≡ false
      → open_handles x.generation s.handles ≡ 1
      → x.generation ≢ s.active_generation
      → (s.objects x.generation).draining ≡ true
      → (s.objects x.generation).in_flight ≡ 0
      → has x.generation ((release h s).generations) ≡ false
unfolding release release_drained
release_last initial cs h x e r one other d f =
    let s = run cs (new_store initial) in
    let w = run-new_store initial cs in
    let objects = update x.generation end_query s.objects in
    let stays : ℕ → Bool = λ k. k == s.active_generation || not (is_releasable (objects k)) in
    let opened : release h s ≡ release_open h x s =
      ap (λ o. release_found h o s) e ∙ ap (λ b. if b then s else release_open h x s) r in
    ap (λ (t : GenerationStore). has x.generation t.generations) opened
    ∙ filter-excludes stays x.generation s.generations
        (ground (arith, w.counted x.generation, one, other, d, f))
