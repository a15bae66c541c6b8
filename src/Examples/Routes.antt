-- ===== src/Examples/Routes.antt =====
-- The choice of a provider of scripts/pd_fleet/provider_routing.py at concrete inputs.
use project_development_skil.Base.{true, false, some, List, [], ◌∷◌, ◌≡◌, refl}
use project_development_skil.Dict
use project_development_skil.Dict.{Dict}
use project_development_skil.Store.Batch.{mem, distinct}
use project_development_skil.Routing.{
  Patterns, Profile, ProviderRoutePolicy, RouteResult, selected, preferred_selected, profile_id,
  ordered_ids, catalog_map, decide, route_provider, route_from, route_in, eligible, consider,
  admits, is_forbidden, outcome, audited, audit_accepted, audit_consistent,
}
use project_development_skil.Routing.Choice.{
  IsEligible, route_provider_safe, decide-audit_consistent,
}

abbrev patterns : Patterns
patterns = record { is_safe_id = λ k. true; is_safe_slug = λ k. true }

-- The first provider is not ready.
abbrev catalog : List Profile
catalog =
    record {
      provider_name = "local";
      runtime_name = "cli";
      enabled = true;
      is_ready = false;
      auth_ref = some "ref";
      capabilities = "code" ∷ [];
    }
    ∷ record {
      provider_name = "remote";
      runtime_name = "cli";
      enabled = true;
      is_ready = true;
      auth_ref = some "ref";
      capabilities = "review" ∷ "code" ∷ [];
    }
    ∷ []

abbrev policy : ProviderRoutePolicy
policy = record {
  preferred_ids = "local/cli" ∷ "remote/cli" ∷ [];
  fallback_ids = [];
  required_capabilities = "code" ∷ [];
  allow_fallback = false;
  max_candidates = 2;
}

abbrev route : RouteResult
route = record {
  status = selected;
  reason = preferred_selected;
  chosen = some "remote/cli";
  candidates = "local/cli" ∷ "remote/cli" ∷ [];
}

policy-decide : decide policy catalog ≡ some route
unfolding decide route_from route_in eligible consider admits is_forbidden outcome ordered_ids
    catalog_map profile_id Dict.get Dict.put Dict.has_key
policy-decide = refl

policy-route : route_provider patterns "t1" "r1" policy catalog ≡ some route
unfolding route_provider audited audit_accepted audit_consistent decide route_from route_in eligible
    consider admits is_forbidden outcome ordered_ids catalog_map profile_id Dict.get Dict.put
    Dict.has_key distinct
policy-route = refl

route_provider_safe_example :
    ((profiles : Dict Profile) × (catalog_map [] catalog ≡ some profiles)
      × IsEligible profiles policy.required_capabilities (ordered_ids policy) "remote/cli")
    × (policy.allow_fallback ≡ false → mem "remote/cli" policy.preferred_ids ≡ true)
route_provider_safe_example =
    route_provider_safe patterns "t1" "r1" policy catalog policy-route refl

decide-audit_consistent_example : audit_consistent route ≡ true
decide-audit_consistent_example = decide-audit_consistent policy catalog policy-decide
