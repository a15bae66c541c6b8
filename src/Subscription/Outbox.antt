-- ===== src/Subscription/Outbox.antt =====
-- Acknowledgement in scripts/pd_fleet/gateway_subscription.py: proofs on the loop that moves the cursor
-- and on the numbers of an outbox.
use project_development_skil.Base.{
  ℕ, zero, suc, ◌+◌, ◌-◌, ◌≤◌, ◌<◌, Bool, true, false, List, [], ◌∷◌, ◌++◌, ◌≡◌, refl, arith, ltb,
  all, ◌==◌, Bool-cases, inl, inr,
}
use project_development_skil.Subscription.{EventRecord, after}
use project_development_skil.Subscription.Delivery.{advance, may_advance, remove, mem_seq, enqueue}

module _ (out : List ℕ) (upto : ℕ) where
  advance-stops :
      (n cursor : ℕ) → upto - cursor ≤ n → may_advance out upto (advance n out upto cursor) ≡ false
  unfolding advance
  advance-stops zero cursor h = ground arith
  advance-stops (suc n) cursor h = ground (arith, advance-stops n (cursor + 1))

  advance-bounds :
      (n cursor : ℕ)
      → (cursor ≤ advance n out upto cursor) × (cursor ≤ upto → advance n out upto cursor ≤ upto)
  unfolding advance
  advance-bounds zero cursor = (ground arith, λ h. h)
  advance-bounds (suc n) cursor =
      let (low, high) = advance-bounds n (cursor + 1) in
      (ground (arith, low), λ h. ground (arith, high))

  advance-free :
      (n cursor m : ℕ) → cursor < m → m ≤ advance n out upto cursor → mem_seq m out ≡ false
  unfolding advance
  advance-free zero cursor m h g = absurd (ground arith)
  advance-free (suc n) cursor m h g = elim (Bool-cases (m == cursor + 1)) [
    | inl e ↦ (let q : m ≡ cursor + 1 = ground arith in rw q (ground (arith, g)))
    | inr e ↦ ground (arith, advance-free n (cursor + 1) m)
  ]

-- The loop of an acknowledgement ends by its own test, with as many rounds as the distance to what
-- was delivered: it stops at a number from the cursor on, which is what was delivered last or is
-- followed by a number in the outbox, and it passes no number of the outbox.
pub advance_ends :
    (out : List ℕ) (upto cursor : ℕ)
    → (may_advance out upto (advance (upto - cursor) out upto cursor) ≡ false)
      × (cursor ≤ advance (upto - cursor) out upto cursor)
      × (cursor ≤ upto → advance (upto - cursor) out upto cursor ≤ upto)
      × ((m : ℕ) → cursor < m → m ≤ advance (upto - cursor) out upto cursor → mem_seq m out ≡ false)
advance_ends out upto cursor = (
  advance-stops out upto (upto - cursor) cursor (ground arith),
  (advance-bounds out upto (upto - cursor) cursor).0,
  (advance-bounds out upto (upto - cursor) cursor).1,
  advance-free out upto (upto - cursor) cursor,
)

-- Every number of an outbox lies after the cursor.
abbrev pub is_owed : ℕ → List ℕ → Bool
is_owed cursor out = all (λ m. ltb cursor m) out

is_owed-next :
    (cursor : ℕ) (out : List ℕ)
    → is_owed cursor out ≡ true
    → mem_seq (cursor + 1) out ≡ false
    → is_owed (cursor + 1) out ≡ true
is_owed-next cursor [] h g = refl
is_owed-next cursor (m ∷ out) h g = ground (arith, is_owed-next cursor out)

pub is_owed-advance :
    (out : List ℕ) (upto n cursor : ℕ)
    → is_owed cursor out ≡ true
    → is_owed (advance n out upto cursor) out ≡ true
unfolding advance
is_owed-advance out upto zero cursor h = h
is_owed-advance out upto (suc n) cursor h = elim (Bool-cases (may_advance out upto cursor)) [
  | inl go ↦
      rw go (is_owed-advance out upto n (cursor + 1) (is_owed-next cursor out h (ground arith)))
  | inr stop ↦ rw stop h
]

pub is_owed-remove :
    (cursor n : ℕ) (out : List ℕ) → is_owed cursor out ≡ true → is_owed cursor (remove n out) ≡ true
unfolding remove
is_owed-remove cursor n [] h = refl
is_owed-remove cursor n (m ∷ out) h = ground (arith, is_owed-remove cursor n out)

is_owed-add :
    (cursor n : ℕ) (out : List ℕ)
    → is_owed cursor out ≡ true
    → cursor < n
    → is_owed cursor (out ++ n ∷ []) ≡ true
is_owed-add cursor n [] h g = ground arith
is_owed-add cursor n (m ∷ out) h g = ground (arith, is_owed-add cursor n out)

pub is_owed-enqueue :
    (cursor : ℕ) (out : List ℕ) (events : List EventRecord)
    → is_owed cursor out ≡ true
    → all (λ (e : EventRecord). ltb cursor e.sequence) events ≡ true
    → is_owed cursor (enqueue out events) ≡ true
unfolding enqueue
is_owed-enqueue cursor out [] h g = h
is_owed-enqueue cursor out (e ∷ es) h g = elim (Bool-cases (mem_seq e.sequence out)) [
  | inl old ↦ rw old (is_owed-enqueue cursor out es h (ground arith))
  | inr new ↦ rw new (
      is_owed-enqueue cursor (out ++ e.sequence ∷ []) es
        (is_owed-add cursor e.sequence out h (ground arith)) (ground arith))
]

pub all-after :
    (n : ℕ) (events : List EventRecord)
    → all (λ (e : EventRecord). ltb n e.sequence) (after n events) ≡ true
all-after n [] = refl
all-after n (e ∷ es) = ground (arith, all-after n es)
