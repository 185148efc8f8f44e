-- ===== src/Resolution/Domain/Contract/Laws.antt =====
-- The contract of a resolved Domain loses nothing.
use environments.Common.{String, ◌≡◌, sym, ap, ◌∙◌, ◌≢◌, ◌⊎◌, inl, inr, some, some-injective, ok}
use environments.Json.{Fields}
use environments.Resolution.Domain.{ResolvedDomainSpec, resolve_domain_spec}
use environments.Resolution.Domain.Laws.{resolve_domain_spec-IsDomainOf}
use environments.Resolution.Domain.Contract.{TlsStrategyEnum, map_tls_strategy, to_domain_contract}

module _ {Enum : Type 0} (enum : TlsStrategyEnum Enum) where
  -- The two strategies have two values.
  abbrev pub TellsApart : Type 0
  TellsApart = enum.platform ≢ enum.custom

  map_tls_strategy-injective :
      TellsApart
      → (s t : String) → (s ≡ "platform") ⊎ (s ≡ "custom")
      → (t ≡ "platform") ⊎ (t ≡ "custom")
      → map_tls_strategy enum (some s) ≡ map_tls_strategy enum (some t)
      → s ≡ t
  unfolding map_tls_strategy
  map_tls_strategy-injective apart s t (inl p) (inl q) same = p ∙ sym q
  map_tls_strategy-injective apart s t (inr p) (inr q) same = p ∙ sym q
  map_tls_strategy-injective apart s t (inl p) (inr q) same = absurd (apart (rw (p, q) at same))
  map_tls_strategy-injective apart s t (inr p) (inl q) same =
      absurd (apart (sym (rw (p, q) at same)))

  -- Two Domains that resolution accepts and whose contracts are equal have equal specs, where the
  -- generated enum has two values for the two strategies.
  pub to_domain_contract-injective :
      {Float64 : Type 0} (m n : Fields Float64) (s t : ResolvedDomainSpec)
      → TellsApart
      → resolve_domain_spec m ≡ ok s
      → resolve_domain_spec n ≡ ok t
      → to_domain_contract enum (some s) ≡ to_domain_contract enum (some t)
      → s ≡ t
  unfolding to_domain_contract
  to_domain_contract-injective m n s t apart s_ok t_ok h =
      let same = some-injective h in
      let (p, p_is, _, p_known) = (resolve_domain_spec-IsDomainOf m s s_ok).tls in
      let (q, q_is, _, q_known) = (resolve_domain_spec-IsDomainOf n t t_ok).tls in
      let enums =
        ap (map_tls_strategy enum) (sym p_is)
        ∙ ap (λ c. c.tls_strategy) same
        ∙ ap (map_tls_strategy enum) q_is in
      let tls =
        p_is ∙ ap some (map_tls_strategy-injective apart p q p_known q_known enums) ∙ sym q_is in
      λ i. record {
        host = (same i).host;
        route_ref = (same i).route_ref;
        tls_strategy = tls i;
        mtls = (same i).mtls;
        renew_before = (same i).renew_before;
      }
