-- ===== src/Gates/Approval.antt =====
-- scripts/pd_fleet/gates.py: which decisions of a person a HumanVerificationGate lets through.
use project_development_skil.Base.{
  ◌+◌, ◌≤◌, String, true, false, Option, none, some, ◌≡◌, ◌≢◌, ◌↔◌, refl, arith, eq_iff,
  Option-cases, Bool-cases, inl, inr, is_blank, ap, sym,
}
use project_development_skil.Value.{Value, Items, null, string, nil, cons}
use project_development_skil.Gates.{passed, any_items, open_blocker, safe_list}
use project_development_skil.Gates.Human.{HumanGate, approved}
use project_development_skil.Gates.Scope.{
  Request, in_scope, canonical_scope, current_blockers, is_digest, last_instant, decide, evaluate,
  is_text, is_null, texts_agree,
}

-- No item is an open blocker.
pub NoneOpen : Items → Type 0
NoneOpen nil = Unit
NoneOpen (cons v vs) = (open_blocker v ≡ false) × NoneOpen vs

-- Everything that an approval takes: the call names the gate's run and a scope with the same
-- canonical text, the blockers of the call, or else the gate's own, are closed, the decision is an
-- approval, a digest of the call is the gate's, and the window ends at an instant that `datetime` has
-- and that is not over.
pub record IsApproved (g : HumanGate) (r : Request) : Type 0 where
  pub run : (r.expected_run ≡ string g.run) × (is_blank g.run ≡ false)
  pub scope_given : r.expected_scope ≢ null
  pub scope_text : String
  pub own_scope : canonical_scope g.scope ≡ some scope_text
  pub expected_scope : canonical_scope r.expected_scope ≡ some scope_text
  pub own_blockers : r.blockers ≡ null → NoneOpen g.blockers
  pub given_blockers :
      r.blockers ≢ null → (items : Items) × (safe_list r.blockers ≡ some items) × NoneOpen items
  pub decision : g.decision ≡ approved
  pub artifact : (t : String) → r.artifact_digest ≡ some t → t ≡ g.artifact_digest
  pub evidence : (t : String) → r.evidence_digest ≡ some t → t ≡ g.evidence_digest
  pub representable : g.updated_at + g.freshness_window ≤ last_instant
  pub recent : r.now ≤ g.updated_at + g.freshness_window

any_items-NoneOpen : (vs : Items) → (any_items open_blocker vs ≡ false) ↔ NoneOpen vs
unfolding NoneOpen
any_items-NoneOpen nil = (λ _. tt, λ _. refl)
any_items-NoneOpen (cons v vs) = ground (arith, any_items-NoneOpen vs)

is_text_iff :
    (v : Value) (run : String)
    → (is_text v run ≡ true) ↔ ((v ≡ string run) × (is_blank run ≡ false))
is_text_iff (string s) run = (
  λ h.
      let e : run ≡ s = (eq_iff run s).0 (ground arith) in (ap string (sym e), rw e (ground arith)),
  λ h. ground (arith, eq_iff run s),
)
is_text_iff _ run = (ground arith, ground arith)

is_null_iff : (v : Value) → (is_null v ≡ false) ↔ (v ≢ null)
is_null_iff null = (ground arith, ground arith)
is_null_iff _ = (ground arith, ground arith)

texts_agree_iff :
    (a b : Option String) → (texts_agree a b ≡ true) ↔ ((t : String) × (a ≡ some t) × (b ≡ some t))
texts_agree_iff (some s) (some t) =
    (λ h. (s, refl, ap some (sym ((eq_iff s t).0 h))), λ h. ground (arith, eq_iff s t))
texts_agree_iff (some s) none = (ground arith, ground arith)
texts_agree_iff none b = (ground arith, ground arith)

is_digest_iff :
    (given : Option String) (own : String)
    → (is_digest given own ≡ true) ↔ ((t : String) → given ≡ some t → t ≡ own)
is_digest_iff none own = (λ h t e. ground arith, λ h. refl)
is_digest_iff (some s) own =
    (λ h t e. ground (arith, (eq_iff s own).0 h), λ h. (eq_iff s own).1 (h s refl))

-- The blockers that count are read, and none of them is open.
abbrev Closed : HumanGate → Value → Type 0
Closed g v = (items : Items) × (current_blockers g v ≡ some items) × NoneOpen items

Closed-null : (g : HumanGate) (v : Value) → Closed g v → v ≡ null → NoneOpen g.blockers
unfolding current_blockers
Closed-null g null (items, e, n) h = (let q : g.blockers ≡ items = ground (arith, e) in rw q n)
Closed-null g _ c h = absurd (ground arith)

Closed-given :
    (g : HumanGate) (v : Value)
    → Closed g v
    → v ≢ null
    → (items : Items) × (safe_list v ≡ some items) × NoneOpen items
unfolding current_blockers
Closed-given g null c h = absurd (h refl)
Closed-given g _ c h = c

Closed-of :
    (g : HumanGate) (v : Value)
    → (v ≡ null → NoneOpen g.blockers)
    → (v ≢ null → (items : Items) × (safe_list v ≡ some items) × NoneOpen items)
    → Closed g v
unfolding current_blockers
Closed-of g null a b = (g.blockers, refl, a refl)
Closed-of g _ a b = b (ground arith)

module _ (g : HumanGate) (r : Request) where
  in_scope_iff : (in_scope g r ≡ true) ↔ (
      ((r.expected_run ≡ string g.run) × (is_blank g.run ≡ false))
      × (r.expected_scope ≢ null)
      × ((t : String) × (canonical_scope g.scope ≡ some t)
          × (canonical_scope r.expected_scope ≡ some t)))
  unfolding in_scope
  in_scope_iff =
      let run = is_text_iff r.expected_run g.run in
      let given = is_null_iff r.expected_scope in
      let text = texts_agree_iff (canonical_scope g.scope) (canonical_scope r.expected_scope) in
      (
        λ h. (run.0 (ground arith), given.0 (ground arith), text.0 (ground arith)),
        λ (a, b, c). ground (arith, run.1 a, given.1 b, text.1 c),
      )

  -- The verdict of an approval, once the digests agree
  decide-passed_iff : (decide g r ≡ some passed) ↔ (
      (g.decision ≡ approved)
      × (is_digest r.artifact_digest g.artifact_digest ≡ true)
      × (is_digest r.evidence_digest g.evidence_digest ≡ true)
      × (g.updated_at + g.freshness_window ≤ last_instant)
      × (r.now ≤ g.updated_at + g.freshness_window))
  unfolding decide
  decide-passed_iff = (ground arith, ground arith)

  evaluate-passed_iff :
      (evaluate g r ≡ some passed)
      ↔ ((in_scope g r ≡ true) × Closed g r.blockers × (decide g r ≡ some passed))
  unfolding evaluate
  evaluate-passed_iff = elim (Bool-cases (in_scope g r)) [
    | inr out ↦ (λ h. (let n = rw out at h in cc), λ c. cc)
    | inl here ↦ elim (Option-cases (current_blockers g r.blockers)) [
      | inl bad ↦ (λ h. (let n = rw (here, bad) at h in cc), λ (_, (items, e, _), _). cc)
      | inr (items, e) ↦ (
        λ h.
            let n = rw (here, e) at h in
            let closed : any_items open_blocker items ≡ false = ground (arith, n) in
            (here, (items, e, (any_items-NoneOpen items).0 closed), ground (arith, n)),
        λ (_, (others, f, none_open), d).
            let same : items ≡ others = ground arith in
            let closed : any_items open_blocker items ≡ false =
              (any_items-NoneOpen items).1 (rw same none_open) in
            rw (here, e, closed) d,
      )
    ]
  ]

-- A record of a person's decision lets a request through exactly when the call names the gate's run
-- and a scope with the canonical text of the gate's, the blockers of the call, or else the gate's
-- own, are readable and closed, the decision is an approval, the digests of the call, if any, are the
-- gate's, and the freshness window ends at an instant that `datetime` can hold and that is not over.
pub approval_iff : (g : HumanGate) (r : Request) → (evaluate g r ≡ some passed) ↔ IsApproved g r
approval_iff g r = (
  λ h.
      let (s, c, d) = (evaluate-passed_iff g r).0 h in
      let (run, given, (t, own, expected)) = (in_scope_iff g r).0 s in
      let (a, artifact, evidence, u, n) = (decide-passed_iff g r).0 d in
      record {
        run = run;
        scope_given = given;
        scope_text = t;
        own_scope = own;
        expected_scope = expected;
        own_blockers = Closed-null g r.blockers c;
        given_blockers = Closed-given g r.blockers c;
        decision = a;
        artifact = (is_digest_iff _ _).0 artifact;
        evidence = (is_digest_iff _ _).0 evidence;
        representable = u;
        recent = n;
      },
  λ a. (evaluate-passed_iff g r).1 (
    (in_scope_iff g r).1 (a.run, a.scope_given, (a.scope_text, a.own_scope, a.expected_scope)),
    Closed-of g r.blockers a.own_blockers a.given_blockers,
    (decide-passed_iff g r).1 (
      a.decision,
      (is_digest_iff _ _).1 a.artifact,
      (is_digest_iff _ _).1 a.evidence,
      a.representable,
      a.recent,
    ),
  ),
)
