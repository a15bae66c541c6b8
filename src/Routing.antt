-- ===== src/Routing.antt =====
-- scripts/pd_fleet/provider_routing.py: the choice of a provider for a task. `none` stands for a
-- RoutingConfigurationError. The tests of identifiers by regular expressions are parameters.
pub mod Choice
use Prim.Native.String.{◌++◌ as append}
use project_development_skil.Base.{
  ℕ, String, Bool, true, false, not, ◌&&◌, ◌||◌, Option, none, some, List, [], ◌∷◌, ◌++◌, leb,
  str_eq, if◌then◌else◌, any, all, is_some, is_empty,
}
use project_development_skil.Dict
use project_development_skil.Dict.{Dict}
use project_development_skil.Store.Batch.{mem, distinct, take}

-- What the routing reads of a RuntimeProviderProfile.
pub record Profile : Type 0 where
  pub provider_name : String
  pub runtime_name : String
  pub enabled : Bool
  pub is_ready : Bool
  pub auth_ref : Option String
  pub capabilities : List String

pub record ProviderRoutePolicy : Type 0 where
  pub preferred_ids : List String
  pub fallback_ids : List String
  pub required_capabilities : List String
  pub allow_fallback : Bool
  pub max_candidates : ℕ

pub data RouteStatus : Type 0 where
  selected blocked no_provider : RouteStatus

pub data AuditReason : Type 0 where
  preferred_selected explicit_fallback_selected fallback_not_permitted : AuditReason
  no_eligible_provider no_provider_configured : AuditReason

pub record RouteResult : Type 0 where
  pub status : RouteStatus
  pub reason : AuditReason
  pub chosen : Option String
  pub candidates : List String

-- The tests that identities and the audit's slugs must pass.
pub record Patterns : Type 0 where
  pub is_safe_id : String → Bool
  pub is_safe_slug : String → Bool

abbrev pub forbidden_capabilities : List String
forbidden_capabilities = "shell" ∷ "network" ∷ "nested_agents" ∷ []

-- `set(capabilities) & _FORBIDDEN_CAPABILITIES`
unfoldable pub is_forbidden : List String → Bool
is_forbidden capabilities = any (λ c. mem c forbidden_capabilities) capabilities

unfoldable pub profile_id : Profile → String
profile_id p = append p.provider_name (append "/" p.runtime_name)

-- ProviderRoutePolicy.__post_init__
unfoldable pub policy_accepted : Patterns → ProviderRoutePolicy → Bool
unfolding is_forbidden distinct
policy_accepted patterns p =
    (all patterns.is_safe_id p.preferred_ids && distinct p.preferred_ids)
    && ((all patterns.is_safe_id p.fallback_ids && distinct p.fallback_ids)
        && (not (any (λ k. mem k p.fallback_ids) p.preferred_ids)
            && (not (mem "" p.required_capabilities)
                && (not (is_forbidden p.required_capabilities)
                    && (distinct p.required_capabilities && leb 1 p.max_candidates)))))

unfoldable pub ordered_ids : ProviderRoutePolicy → List String
ordered_ids p = p.preferred_ids ++ (if p.allow_fallback then p.fallback_ids else [])

-- _catalog_map
unfoldable pub catalog_map : Dict Profile → List Profile → Option (Dict Profile)
unfolding profile_id
catalog_map d [] = some d
catalog_map d (p ∷ ps) =
    let rest = catalog_map (Dict.put (profile_id p) p d) ps in
    if Dict.has_key (profile_id p) d then none else rest

-- The tests that pass over a profile.
unfoldable pub admits : List String → Profile → Bool
admits required p =
    (p.enabled && p.is_ready) && (is_some p.auth_ref && all (λ c. mem c p.capabilities) required)

abbrev pub add_id : String → Option (List String) → Option (List String)
add_id k none = none
add_id k (some ks) = some (k ∷ ks)

-- One round of the loop, given the rest of it.
unfoldable pub consider :
    List String → String → Option Profile → Option (List String) → Option (List String)
unfolding admits is_forbidden
consider required k none rest = none
consider required k (some p) rest =
    if not (admits required p)
    then rest
    else if is_forbidden p.capabilities
    then none
    else add_id k rest

unfoldable pub eligible : Dict Profile → List String → List String → Option (List String)
unfolding consider
eligible profiles required [] = some []
eligible profiles required (k ∷ ks) =
    consider required k (Dict.get k profiles) (eligible profiles required ks)

abbrev pub first_of : List String → Option String
first_of [] = none
first_of (k ∷ ks) = some k

-- The outcome for the identity that was selected, if any.
unfoldable pub outcome : ProviderRoutePolicy → List String → Option String → RouteResult
outcome p candidates (some k) = record {
  status = selected;
  reason = if mem k p.preferred_ids then preferred_selected else explicit_fallback_selected;
  chosen = some k;
  candidates = candidates;
}
outcome p candidates none =
    if is_empty (p.preferred_ids ++ p.fallback_ids)
    then record {
      status = no_provider;
      reason = no_provider_configured;
      chosen = none;
      candidates = candidates;
    }
    else record {
      status = blocked;
      reason = if p.allow_fallback then no_eligible_provider else fallback_not_permitted;
      chosen = none;
      candidates = candidates;
    }

-- `tuple(requested) or tuple(policy.fallback_ids)`
abbrev pub or_ids : List String → List String → List String
or_ids [] ys = ys
or_ids (x ∷ xs) ys = x ∷ xs

abbrev pub compatible : RouteStatus → AuditReason → Bool
compatible selected preferred_selected = true
compatible selected explicit_fallback_selected = true
compatible blocked fallback_not_permitted = true
compatible blocked no_eligible_provider = true
compatible no_provider no_provider_configured = true
compatible _ _ = false

-- A selected route names one of the candidates, any other names none.
abbrev pub chosen_fits : RouteStatus → Option String → List String → Bool
chosen_fits selected (some k) candidates = mem k candidates
chosen_fits selected none candidates = false
chosen_fits _ (some k) candidates = false
chosen_fits _ none candidates = true

abbrev pub is_no_provider : RouteStatus → Bool
is_no_provider no_provider = true
is_no_provider _ = false

-- ProviderAuditEvent.__post_init__, without the texts
unfoldable pub audit_consistent : RouteResult → Bool
unfolding distinct
audit_consistent r =
    compatible r.status r.reason
    && (chosen_fits r.status r.chosen r.candidates
        && (not (is_empty r.candidates) || is_no_provider r.status))

unfoldable pub audit_accepted : Patterns → String → String → RouteResult → Bool
unfolding audit_consistent
audit_accepted patterns task_id run_id r =
    (patterns.is_safe_slug task_id && patterns.is_safe_slug run_id)
    && ((all patterns.is_safe_id r.candidates && distinct r.candidates) && audit_consistent r)

abbrev pub when {ℓ} : {A : Type ℓ} → Bool → A → Option A
when true a = some a
when false a = none

-- What is left once the catalog is read.
unfoldable pub route_in :
    ProviderRoutePolicy → Dict Profile → Option (List String) → Option RouteResult
unfolding ordered_ids outcome
route_in policy profiles none = none
route_in policy profiles (some ids) = some (
    outcome policy (or_ids (ordered_ids policy) policy.fallback_ids)
      (first_of (take policy.max_candidates ids)))

unfoldable pub route_from : ProviderRoutePolicy → Option (Dict Profile) → Option RouteResult
unfolding route_in eligible ordered_ids
route_from policy none = none
route_from policy (some profiles) =
    if all (λ k. Dict.has_key k profiles) (policy.preferred_ids ++ policy.fallback_ids)
    then route_in policy profiles
        (eligible profiles policy.required_capabilities (ordered_ids policy))
    else none

-- The decision, before the audit is made.
unfoldable pub decide : ProviderRoutePolicy → List Profile → Option RouteResult
unfolding route_from catalog_map
decide policy catalog = route_from policy (catalog_map [] catalog)

unfoldable pub audited : Patterns → String → String → Option RouteResult → Option RouteResult
unfolding audit_accepted
audited patterns task_id run_id none = none
audited patterns task_id run_id (some r) = when (audit_accepted patterns task_id run_id r) r

unfoldable pub route_provider :
    Patterns → String → String → ProviderRoutePolicy → List Profile → Option RouteResult
unfolding decide audit_accepted
route_provider patterns task_id run_id policy catalog =
    audited patterns task_id run_id (decide policy catalog)
