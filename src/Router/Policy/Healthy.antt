-- ===== src/Router/Policy/Healthy.antt =====
-- The health that router/policy.ts reads, and the entries that it creates on the way.
use sepigs.Base.{
  ℕ, ◌≡◌, refl, ap, ◌∙◌, Bool, Option, none, some, List, [], ◌∷◌, arith, if◌then◌else◌, nat_eq,
  string_eq, filter, All,
}
use sepigs.Base.Table.{get, get-put}
use sepigs.Base.Text.{Text, text_key}
use sepigs.Config.Routes.{RoutingPolicyConfig}
use sepigs.Router.Policy.{
  OutboundHealth, RoutingPolicyManager, created, get_health, health_test, is_healthy,
  filter_healthy,
}

pub filter_same {ℓ} :
    {A : Type ℓ} (p q : A → Bool) (xs : List A)
    → All (λ x. p x ≡ q x) xs
    → filter p xs ≡ filter q xs
filter_same p q [] h = refl
filter_same p q (x ∷ xs) (e, h) = ground (arith, filter_same p q xs h)

pub All-everywhere {ℓ κ} : {A : Type ℓ} (P : A → Type κ) (xs : List A) → ((x : A) → P x) → All P xs
All-everywhere P [] h = tt
All-everywhere P (x ∷ xs) h = (h x, All-everywhere P xs h)

module _ {L : Type 0} where
  abbrev known : Text → Option (OutboundHealth L) → OutboundHealth L
  known tag none = created tag
  known tag (some h) = h

  -- Whether an outbound is healthy, with what is known of it.
  abbrev pub healthy_at : ℕ → RoutingPolicyConfig → RoutingPolicyManager L → Text → Bool
  healthy_at now policy m tag = health_test now policy (known tag (get tag m.health))

  -- Reading the health of an outbound may create an entry, which changes no outbound's health.
  get_health-known :
      (tag t : Text) (m : RoutingPolicyManager L)
      → ((get_health tag m).0 ≡ known tag (get tag m.health))
        × (known t (get t (get_health tag m).1.health) ≡ known t (get t m.health))
        × ((get_health tag m).1.policies ≡ m.policies)
        × ((get_health tag m).1.round_robin_index ≡ m.round_robin_index)
  unfolding get_health
  get_health-known tag t m =
      ground (arith, get-put tag t (created tag) m.health, text_key.beq_iff tag t)

  is_healthy_lem :
      (now : ℕ) (policy : RoutingPolicyConfig) (tag : Text) (m : RoutingPolicyManager L)
      → (is_healthy now policy tag m).0 ≡ healthy_at now policy m tag
  unfolding is_healthy
  is_healthy_lem now policy tag m = ap (health_test now policy) (get_health-known tag tag m).0

  is_healthy-keeps :
      (now : ℕ) (policy : RoutingPolicyConfig) (tag t : Text) (m : RoutingPolicyManager L)
      → healthy_at now policy (is_healthy now policy tag m).1 t ≡ healthy_at now policy m t
  unfolding is_healthy
  is_healthy-keeps now policy tag t m = ap (health_test now policy) (get_health-known tag t m).1

  pub filter_healthy_lem :
      (now : ℕ) (policy : RoutingPolicyConfig) (ts : List Text) (m : RoutingPolicyManager L)
      → (filter_healthy now policy ts m).0 ≡ filter (healthy_at now policy m) ts
  unfolding filter_healthy
  filter_healthy_lem now policy [] m = refl
  filter_healthy_lem now policy (t ∷ ts) m =
      let after = (is_healthy now policy t m).1 in
      let rest : (filter_healthy now policy ts after).0 ≡ filter (healthy_at now policy m) ts =
        filter_healthy_lem now policy ts after
        ∙ filter_same (healthy_at now policy after) (healthy_at now policy m) ts
            (All-everywhere _ ts (λ u. is_healthy-keeps now policy t u m)) in
      ap
        (λ b.
          if b
          then t ∷ (filter_healthy now policy ts after).0
          else (filter_healthy now policy ts after).0)
        (is_healthy_lem now policy t m)
      ∙ ap (λ r. if healthy_at now policy m t then t ∷ r else r) rest
