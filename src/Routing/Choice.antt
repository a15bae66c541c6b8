-- ===== src/Routing/Choice.antt =====
-- What a selected provider fulfils.
use project_development_skil.Base.{
  ℕ, zero, suc, String, true, false, Option, none, some, List, [], ◌∷◌, ◌++◌, ◌≡◌, refl, arith,
  eq_iff, All, sym, ◌∙◌, Option-cases, Bool-cases, inl, inr, is_empty,
}
use project_development_skil.Dict
use project_development_skil.Dict.{Dict}
use project_development_skil.Store.Batch.{mem, take}
use project_development_skil.Routing.{
  Profile, ProviderRoutePolicy, RouteResult, ordered_ids, catalog_map, admits, is_forbidden,
  consider, eligible, outcome, route_in, route_from, decide, first_of, or_ids, audit_consistent,
  Patterns, audited, audit_accepted, route_provider,
}

-- An identity in the list, with a profile that passes every test.
pub record IsEligible (profiles : Dict Profile) (required ids : List String) (k : String)
    : Type 0 where
  pub profile : Profile
  pub listed : mem k ids ≡ true
  pub found : Dict.get k profiles ≡ some profile
  pub admitted : admits required profile ≡ true
  pub harmless : is_forbidden profile.capabilities ≡ false

IsEligible-cons :
    (profiles : Dict Profile) (required ids : List String) (j : String) (ks : List String)
    → All (IsEligible profiles required ids) ks
    → All (IsEligible profiles required (j ∷ ids)) ks
IsEligible-cons profiles required ids j [] h = tt
IsEligible-cons profiles required ids j (k ∷ ks) (h, hs) = (
  record {
    profile = h.profile;
    listed = ground (arith, h.listed);
    found = h.found;
    admitted = h.admitted;
    harmless = h.harmless;
  },
  IsEligible-cons profiles required ids j ks hs,
)

-- A round keeps the rest, or adds an identity that passed the tests.
consider-IsEligible :
    (profiles : Dict Profile) (required ids : List String) (k : String)
    → (o : Option Profile) → (rest : Option (List String)) {ks : List String}
    → Dict.get k profiles ≡ o
    → ((js : List String) → rest ≡ some js → All (IsEligible profiles required ids) js)
    → consider required k o rest ≡ some ks
    → All (IsEligible profiles required (k ∷ ids)) ks
unfolding consider
consider-IsEligible profiles required ids k none rest e f h = cc
consider-IsEligible profiles required ids k (some p) none e f h = absurd (ground arith)
consider-IsEligible profiles required ids k (some p) (some js) {ks} e f h =
    let older = IsEligible-cons profiles required ids k js (f js refl) in
    elim (Bool-cases (admits required p)) [
      | inr no_good ↦ (let q : ks ≡ js = ground arith in rw q older)
      | inl good ↦ elim (Bool-cases (is_forbidden p.capabilities)) [
        | inl bad ↦ absurd (ground arith)
        | inr fine ↦
            (let q : ks ≡ k ∷ js = ground arith in
              rw q (
                record {
                  profile = p;
                  listed = ground (arith, eq_iff k k);
                  found = e;
                  admitted = good;
                  harmless = fine;
                },
                older,
              ))
      ]
    ]

eligible-IsEligible :
    (profiles : Dict Profile) (required ids : List String) {ks : List String}
    → eligible profiles required ids ≡ some ks
    → All (IsEligible profiles required ids) ks
unfolding eligible
eligible-IsEligible profiles required [] {ks} h = let q : ks ≡ [] = ground arith in rw q tt
eligible-IsEligible profiles required (k ∷ ids) h =
    consider-IsEligible profiles required ids k (Dict.get k profiles)
      (eligible profiles required ids) refl (λ js e. eligible-IsEligible profiles required ids e) h

take-first :
    (n : ℕ) (ks : List String) (P : String → Type 0) {k : String}
    → All P ks
    → first_of (take n ks) ≡ some k
    → P k
take-first zero ks P h e = cc
take-first (suc n) [] P h e = cc
take-first (suc n) (j ∷ ks) P {k} (h, hs) e = let q : k ≡ j = ground arith in rw q h

chosen-outcome :
    (p : ProviderRoutePolicy) (cs : List String) (o : Option String) → (outcome p cs o).chosen ≡ o
unfolding outcome
chosen-outcome p cs none = ground arith
chosen-outcome p cs (some k) = refl

-- The decision comes from a list of eligible identities.
decide-outcome :
    (policy : ProviderRoutePolicy) (catalog : List Profile) {r : RouteResult}
    → decide policy catalog ≡ some r
    → (profiles : Dict Profile) × (ids : List String) × (eligible profiles
          policy.required_capabilities
          (ordered_ids policy)
        ≡ some ids)
      × (r
          ≡ outcome policy
              (or_ids (ordered_ids policy) policy.fallback_ids)
              (first_of (take policy.max_candidates ids)))
      × (catalog_map [] catalog ≡ some profiles)
unfolding decide route_from route_in
decide-outcome policy catalog h = elim (Option-cases (catalog_map [] catalog)) [
  | inl n ↦ absurd (ground arith)
  | inr (profiles, f) ↦
      elim (Option-cases (eligible profiles policy.required_capabilities (ordered_ids policy))) [
        | inl n ↦ absurd (ground arith)
        | inr (ids, g) ↦ (profiles, ids, g, ground arith, f)
      ]
]

-- A provider that is chosen is one of the ordered identities of the policy, with a profile of the
-- catalog that is enabled, ready, authorised and capable, and has no forbidden capability.
pub decide-IsEligible :
    (policy : ProviderRoutePolicy) (catalog : List Profile) {r : RouteResult} {k : String}
    → decide policy catalog ≡ some r
    → r.chosen ≡ some k
    → (profiles : Dict Profile) × (catalog_map [] catalog ≡ some profiles)
      × IsEligible profiles policy.required_capabilities (ordered_ids policy) k
decide-IsEligible policy catalog h c =
    let (profiles, ids, g, e, f) = decide-outcome policy catalog h in
    let every = eligible-IsEligible profiles policy.required_capabilities (ordered_ids policy) g in
    let o = chosen-outcome policy _ (first_of (take policy.max_candidates ids)) in
    (profiles, f, take-first policy.max_candidates ids _ every (sym o ∙ rw e at c))

mem-append-none : (k : String) (xs : List String) → mem k (xs ++ []) ≡ mem k xs
mem-append-none k [] = refl
mem-append-none k (x ∷ xs) = ground (arith, mem-append-none k xs)

mem-preferred :
    (k : String) (policy : ProviderRoutePolicy)
    → policy.allow_fallback ≡ false
    → mem k (ordered_ids policy) ≡ true
    → mem k policy.preferred_ids ≡ true
unfolding ordered_ids
mem-preferred k policy a m = sym (mem-append-none k policy.preferred_ids) ∙ (rw a at m)

-- Without permission a fallback is never chosen.
pub decide-preferred :
    (policy : ProviderRoutePolicy) (catalog : List Profile) {r : RouteResult} {k : String}
    → decide policy catalog ≡ some r
    → r.chosen ≡ some k
    → policy.allow_fallback ≡ false
    → mem k policy.preferred_ids ≡ true
decide-preferred policy catalog {r} {k} h c a =
    let (profiles, f, e) = decide-IsEligible policy catalog h c in mem-preferred k policy a e.listed

listed-fits :
    (k : String) (xs ys : List String)
    → mem k xs ≡ true
    → (mem k (or_ids xs ys) ≡ true) × (is_empty (or_ids xs ys) ≡ false)
listed-fits k [] ys h = cc
listed-fits k (x ∷ xs) ys h = (h, refl)

candidates-filled :
    (p : ProviderRoutePolicy)
    → is_empty (p.preferred_ids ++ p.fallback_ids) ≡ false
    → is_empty (or_ids (ordered_ids p) p.fallback_ids) ≡ false
unfolding ordered_ids
candidates-filled p h = ground arith

outcome-consistent :
    (p : ProviderRoutePolicy) (o : Option String)
    → ((k : String) → o ≡ some k → mem k (ordered_ids p) ≡ true)
    → audit_consistent (outcome p (or_ids (ordered_ids p) p.fallback_ids) o) ≡ true
unfolding outcome audit_consistent
outcome-consistent p none f = ground (arith, candidates-filled p)
outcome-consistent p (some k) f =
    ground (arith, listed-fits k (ordered_ids p) p.fallback_ids (f k refl))

-- Every decision passes the audit's own tests: its reason fits its status, it names a provider
-- exactly when one is selected, that provider is a candidate, and the candidates are not empty
-- unless no provider is configured.
pub decide-audit_consistent :
    (policy : ProviderRoutePolicy) (catalog : List Profile) {r : RouteResult}
    → decide policy catalog ≡ some r
    → audit_consistent r ≡ true
decide-audit_consistent policy catalog h =
    let (profiles, ids, g, e, f) = decide-outcome policy catalog h in
    let every = eligible-IsEligible profiles policy.required_capabilities (ordered_ids policy) g in
    rw e (
      outcome-consistent policy (first_of (take policy.max_candidates ids))
        (λ k m. (take-first policy.max_candidates ids _ every m).listed))

audited-some :
    (patterns : Patterns) (task_id run_id : String) (o : Option RouteResult) {r : RouteResult}
    → audited patterns task_id run_id o ≡ some r
    → o ≡ some r
unfolding audited
audited-some patterns task_id run_id none h = cc
audited-some patterns task_id run_id (some q) h =
    elim (Bool-cases (audit_accepted patterns task_id run_id q)) [
      | inl good ↦ rw (good, audited) at h
      | inr bad ↦ (let g = rw (bad, audited) at h in cc)
    ]

-- A provider that route_provider chooses is one of the ordered identities of the policy, with a
-- profile of the catalog that is enabled, ready, authorised and capable and has no forbidden
-- capability; without permission for fallbacks it is a preferred one.
pub route_provider_safe :
    (patterns : Patterns) (task_id run_id : String) (policy : ProviderRoutePolicy)
    → (catalog : List Profile) {r : RouteResult} {k : String}
    → route_provider patterns task_id run_id policy catalog ≡ some r
    → r.chosen ≡ some k
    → ((profiles : Dict Profile) × (catalog_map [] catalog ≡ some profiles)
        × IsEligible profiles policy.required_capabilities (ordered_ids policy) k)
      × (policy.allow_fallback ≡ false → mem k policy.preferred_ids ≡ true)
unfolding route_provider
route_provider_safe patterns task_id run_id policy catalog h c =
    let d = audited-some patterns task_id run_id (decide policy catalog) h in
    (decide-IsEligible policy catalog d c, decide-preferred policy catalog d c)
