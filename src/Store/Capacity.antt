-- ===== src/Store/Capacity.antt =====
-- `claim_many`: what a batch has checked, and the bound on the leases that it leaves.
use project_development_skil.Base.{
  ℕ, ◌+◌, ◌-◌, ◌≤◌, ◌<◌, String, Bool, true, false, none, some, List, [], ◌∷◌, ◌≡◌, ◌∙◌, sym, ◌⊎◌,
  inl, inr, refl, arith, eq_iff, all, any, Bool-cases, ℤ, keep, length, is_none,
}
use mathlib.Core.Option.{some-injective, none-ne-some}
use project_development_skil.Dict
use project_development_skil.Dict.{get-put, length-put_new}
use project_development_skil.Store.State.{Snapshot, Lease}
use project_development_skil.Store.Disk.{ok, Result-cases, stamped}
use project_development_skil.Store.Leases.{known, is_terminal, plus_seconds, install}
use project_development_skil.Store.Batch.{
  Batch, Selector, mem, distinct, reclaimed, on_offer, acceptable, install_all, settle, batch_step,
  differs,
}

module _ (secret : ℕ → String) (ids : List String) (owner : String) (bound : ℕ) (seconds : ℤ)
    (now stamp : ℕ) (select : Selector) (s : Snapshot) where
  -- What `claim_many` checked before it settled for `chosen`.
  pub record Checked (b : Batch) : Type 0 where
    pub chosen : List String
    pub all_known : all (λ tid. known tid s) ids ≡ true
    pub none_terminal : any (λ tid. is_terminal tid s) ids ≡ false
    pub room : length (reclaimed now s).leases < bound
    pub accepted :
        acceptable (on_offer (reclaimed now s) ids) (bound - length (reclaimed now s).leases) chosen
        ≡ true
    pub settled : settle secret owner now stamp seconds s (reclaimed now s) chosen ≡ ok b

  pub batch_step-Checked :
      {b : Batch} → batch_step secret ids owner bound seconds now stamp select s ≡ ok b → Checked b
  unfolding batch_step
  batch_step-Checked {b} h =
      let t = reclaimed now s in
      let capacity = bound - length t.leases in
      elim (Result-cases (select t (on_offer t ids) capacity now)) [
        | inr (e, k) ↦ absurd (ground arith)
        | inl (chosen, k) ↦ record {
          chosen = chosen;
          all_known = ground arith;
          none_terminal = ground arith;
          room = ground arith;
          accepted = ground arith;
          settled = ground arith;
        }
      ]

-- What a settled batch writes: nothing, or the snapshot with the chosen leases.
pub settle-next :
    (secret : ℕ → String) (owner : String) (now stamp : ℕ) (seconds : ℤ) (s t : Snapshot)
    → (chosen : List String) {b : Batch} → settle secret owner now stamp seconds s t chosen ≡ ok b
    → (b.claimed ≡ chosen)
      × ((b.next ≡ none)
          ⊎ ((at : ℕ) × (expiry : ℕ) × (b.next
                ≡ some (stamped at (install_all secret owner expiry 0 chosen t)))))
unfolding settle
settle-next secret owner now stamp seconds s t [] h = elim (Bool-cases (differs s t)) [
  | inl k ↦ (ground arith, inr (now, 0, ground arith))
  | inr k ↦ (ground arith, inl (ground arith))
]
settle-next secret owner now stamp seconds s t (tid ∷ rest) h =
    elim (Result-cases (plus_seconds now seconds)) [
      | inr (e, k) ↦ absurd (ground arith)
      | inl (expiry, k) ↦ (ground arith, inr (stamp, expiry, ground arith))
    ]

pub mem-keep :
    (p : String → Bool) (x : String) (xs : List String)
    → mem x (keep p xs) ≡ true
    → (p x ≡ true) × (mem x xs ≡ true)
mem-keep p x [] h = cc
mem-keep p x (y ∷ ys) h = ground (arith, mem-keep p x ys, eq_iff x y)

length-install :
    (s : Snapshot) (tid owner secret : String) (expiry : ℕ)
    → is_none (Dict.get tid s.leases) ≡ true
    → length (install tid owner secret expiry s).leases ≡ length s.leases + 1
unfolding install
length-install s tid owner secret expiry h =
    length-put_new tid
      (record {
        owner = owner;
        lease_id = secret;
        expires_at = expiry;
        generation = s.generation + 1;
      })
      s.leases (ground arith)

-- A lease for another task leaves the rest free.
free-install :
    (tid owner secret : String) (expiry : ℕ) (rest : List String) (s : Snapshot)
    → mem tid rest ≡ false
    → all (λ x. is_none (Dict.get x s.leases)) rest ≡ true
    → all (λ x. is_none (Dict.get x (install tid owner secret expiry s).leases)) rest ≡ true
unfolding install
free-install tid owner secret expiry [] s m f = refl
free-install tid owner secret expiry (x ∷ xs) s m f =
    let lease : Lease = record {
      owner = owner;
      lease_id = secret;
      expires_at = expiry;
      generation = s.generation + 1;
    } in
    ground
      (arith, get-put tid x lease s.leases, eq_iff tid x, free-install tid owner secret expiry xs s)

-- Distinct free tasks each add one lease.
pub length-install_all :
    (secret : ℕ → String) (owner : String) (expiry n : ℕ) (ids : List String) (s : Snapshot)
    → distinct ids ≡ true
    → all (λ tid. is_none (Dict.get tid s.leases)) ids ≡ true
    → length (install_all secret owner expiry n ids s).leases ≡ length s.leases + length ids
unfolding install_all distinct
length-install_all secret owner expiry n [] s k f = omega arith
length-install_all secret owner expiry n (tid ∷ rest) s k f = ground (
  arith,
  length-install s tid owner (secret n) expiry,
  free-install tid owner (secret n) expiry rest s,
  length-install_all secret owner expiry (n + 1) rest (install tid owner (secret n) expiry s),
)

all-free :
    (s : Snapshot) (ids chosen : List String)
    → all (λ tid. mem tid (on_offer s ids)) chosen ≡ true
    → all (λ tid. is_none (Dict.get tid s.leases)) chosen ≡ true
unfolding on_offer
all-free s ids [] h = refl
all-free s ids (x ∷ xs) h =
    ground (arith, mem-keep (λ tid. is_none (Dict.get tid s.leases)) x ids, all-free s ids xs)

pub acceptable→ :
    (available : List String) (capacity : ℕ) (chosen : List String)
    → acceptable available capacity chosen ≡ true
    → (length chosen ≤ capacity)
      × (all (λ tid. mem tid available) chosen ≡ true)
      × (distinct chosen ≡ true)
unfolding acceptable
acceptable→ available capacity chosen h = ground arith

length-written :
    (secret : ℕ → String) (owner : String) (t : Snapshot) (at expiry : ℕ) (ids chosen : List String)
    → {u : Snapshot} → stamped at (install_all secret owner expiry 0 chosen t) ≡ u
    → distinct chosen ≡ true
    → all (λ tid. mem tid (on_offer t ids)) chosen ≡ true
    → length u.leases ≡ length t.leases + length chosen
unfolding stamped
length-written secret owner t at expiry ids chosen e k m =
    rw (← e) (length-install_all secret owner expiry 0 chosen t k (all-free t ids chosen m))

-- A batch leaves at most `bound` leases, whatever the selector, and claims distinct tasks that are
-- among the ids given and have no active lease. It fails if one of the ids is unknown or terminal.
pub batch_step_bounded :
    (secret : ℕ → String) (ids : List String) (owner : String) (bound : ℕ) (seconds : ℤ)
    → (now stamp : ℕ) (select : Selector) (s : Snapshot) {b : Batch} {u : Snapshot}
    → batch_step secret ids owner bound seconds now stamp select s ≡ ok b
    → b.next ≡ some u
    → (length u.leases ≤ bound)
      × (distinct b.claimed ≡ true)
      × (all (λ tid. mem tid (on_offer (reclaimed now s) ids)) b.claimed ≡ true)
      × (all (λ tid. known tid s) ids ≡ true)
      × (any (λ tid. is_terminal tid s) ids ≡ false)
batch_step_bounded secret ids owner bound seconds now stamp select s {b} {u} h k =
    let r = batch_step-Checked secret ids owner bound seconds now stamp select s h in
    let t = reclaimed now s in
    let (claimed, next) = settle-next secret owner now stamp seconds s t r.chosen r.settled in
    let (few, offered, apart) = acceptable→ (on_offer t ids) _ r.chosen r.accepted in
    (
      elim next [
        | inl e ↦ absurd (none-ne-some _ (sym e ∙ k))
        | inr (at, expiry, e) ↦ omega (
          arith,
          length-written secret owner t at expiry ids r.chosen (some-injective _ _ (sym e ∙ k))
              apart offered,
          r.room,
        )
      ],
      rw claimed apart,
      rw claimed offered,
      r.all_known,
      r.none_terminal,
    )
