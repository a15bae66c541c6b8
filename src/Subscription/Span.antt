-- ===== src/Subscription/Span.antt =====
-- The run of sequence numbers after a bound: what `append` and `prune` of
-- scripts/pd_fleet/gateway_subscription.py keep in the history.
use project_development_skil.Base.{
  ℕ, zero, suc, ◌+◌, ◌-◌, ◌≤◌, List, [], ◌∷◌, ◌++◌, ◌≡◌, refl, arith, ltb, keep, map, Bool-cases,
  inl, inr, ◌∙◌,
}
use project_development_skil.Subscription.{EventRecord, after}

-- The n numbers after lo
abbrev pub count_up : ℕ → ℕ → List ℕ
count_up lo zero = []
count_up lo (suc n) = suc lo ∷ count_up (suc lo) n

abbrev pub span : ℕ → ℕ → List ℕ
span lo hi = count_up lo (hi - lo)

abbrev pub sequences : List EventRecord → List ℕ
sequences events = map (λ (e : EventRecord). e.sequence) events

count_up-snoc : (lo n : ℕ) → count_up lo (suc n) ≡ count_up lo n ++ suc (lo + n) ∷ []
count_up-snoc lo zero = ground arith
count_up-snoc lo (suc n) = ground (arith, count_up-snoc (suc lo) n)

pub span-snoc : (lo hi : ℕ) → lo ≤ hi → span lo (suc hi) ≡ span lo hi ++ suc hi ∷ []
span-snoc lo hi h =
    let e : suc hi - lo ≡ suc (hi - lo) = ground arith in
    let f : lo + (hi - lo) ≡ hi = ground arith in
    rw e (ground (arith, f, count_up-snoc lo (hi - lo)))

pub span-empty : (lo hi : ℕ) → hi ≤ lo → span lo hi ≡ []
span-empty lo hi h = let e : hi - lo ≡ 0 = ground arith in rw e refl

keep-count_up_all : (f lo n : ℕ) → f ≤ lo → keep (λ x. ltb f x) (count_up lo n) ≡ count_up lo n
keep-count_up_all f lo zero h = refl
keep-count_up_all f lo (suc n) h = ground (arith, keep-count_up_all f (suc lo) n)

-- Keeping what is after a later bound leaves the run after that bound.
keep-count_up :
    (f lo n : ℕ) → lo ≤ f → keep (λ x. ltb f x) (count_up lo n) ≡ count_up f (lo + n - f)
keep-count_up f lo zero h = let e : lo + 0 - f ≡ 0 = ground arith in rw e refl
keep-count_up f lo (suc n) h = elim (Bool-cases (ltb lo f)) [
  | inl less ↦
      (let e : lo + suc n - f ≡ suc lo + n - f = ground arith in
        rw e (ground (arith, keep-count_up f (suc lo) n)))
  | inr same ↦
      (let e : f ≡ lo = ground arith in
        let d : lo + suc n - lo ≡ suc n = ground arith in
        keep-count_up_all f lo (suc n) (ground arith) ∙ rw (e, d) refl)
]

pub keep-span : (f lo hi : ℕ) → lo ≤ f → keep (λ x. ltb f x) (span lo hi) ≡ span f hi
keep-span f lo hi h = elim (Bool-cases (ltb lo hi)) [
  | inl less ↦
      (let e : lo + (hi - lo) ≡ hi = ground arith in rw e at (keep-count_up f lo (hi - lo) h))
  | inr past ↦ rw (span-empty lo hi (ground arith), span-empty f hi (ground arith)) refl
]

pub sequences-after :
    (f : ℕ) (events : List EventRecord)
    → sequences (after f events) ≡ keep (λ x. ltb f x) (sequences events)
sequences-after f [] = refl
sequences-after f (e ∷ es) = ground (arith, sequences-after f es)

pub sequences-append :
    (xs ys : List EventRecord) → sequences (xs ++ ys) ≡ sequences xs ++ sequences ys
sequences-append [] ys = refl
sequences-append (x ∷ xs) ys = ground (arith, sequences-append xs ys)
