-- ===== src/Store/Refinement/Batches.antt =====
-- `claim_many`, on a disk whose reader gets `s`.
use project_development_skil.Base.{
  ℕ, ◌+◌, String, Bool, true, ◌&&◌, none, some, List, [], ◌∷◌, ◌≡◌, ◌∙◌, inl, inr, refl, arith,
  eq_iff, all, ℤ, leb, is_none,
}
use project_development_skil.Dict
use project_development_skil.Store.State.{Snapshot, Env, is_id}
use project_development_skil.Store.Validate.{validate}
use project_development_skil.Store.Disk.{Result, ok, err, Disk, current}
use project_development_skil.Store.Crash.{IsOrdered}
use project_development_skil.Store.Evolution.{Evolves-trans, reclaimed-Evolves, install_all-Evolves}
use project_development_skil.Store.Validity.{reclaimed-valid, install_all-valid, and-true}
use project_development_skil.Store.Leases.{is_positive, install}
use project_development_skil.Store.Batch.{
  Batch, Selector, mem, distinct, reclaimed, on_offer, install_all, batch_step, save_batch,
  claim_many,
}
use project_development_skil.Store.Capacity.{batch_step-Checked, settle-next, acceptable→, mem-keep}
use project_development_skil.Store.Refinement.{
  After, guarded-After, stay, current-valid, opened-cases, written-After,
}

all-mem :
    (p : String → Bool) (x : String) (xs : List String)
    → all p xs ≡ true
    → mem x xs ≡ true
    → p x ≡ true
all-mem p x [] h m = cc
all-mem p x (y ∷ ys) h m = ground (arith, eq_iff x y, all-mem p x ys)

chosen-is_id :
    (t : Snapshot) (ids chosen : List String)
    → all is_id ids ≡ true
    → all (λ tid. mem tid (on_offer t ids)) chosen ≡ true
    → all is_id chosen ≡ true
unfolding on_offer
chosen-is_id t ids [] h m = refl
chosen-is_id t ids (x ∷ xs) h m = ground (
  arith,
  mem-keep (λ tid. is_none (Dict.get tid t.leases)) x ids,
  all-mem is_id x ids h,
  chosen-is_id t ids xs h,
)

generation-install_all :
    (secret : ℕ → String) (owner : String) (expiry n : ℕ) (ids : List String) (s : Snapshot)
    → (install_all secret owner expiry n ids s).generation ≡ s.generation
unfolding install_all
generation-install_all secret owner expiry n [] s = refl
generation-install_all secret owner expiry n (tid ∷ rest) s =
    generation-install_all secret owner expiry (n + 1) rest (install tid owner (secret n) expiry s)

module _ (env : Env) (d : Disk) (s : Snapshot) (c : current env d ≡ some s)
    (o : IsOrdered env d) where
  save_batch-After :
      (secret : ℕ → String) (ids : List String) (owner : String) (bound : ℕ) (seconds : ℤ)
      → (now stamp : ℕ) (select : Selector) → ((n : ℕ) → is_id (secret n) ≡ true)
      → all is_id ids ≡ true
      → is_id owner ≡ true
      → (r : Result Batch) → batch_step secret ids owner bound seconds now stamp select s ≡ r
      → After env s (save_batch env d r).1
  unfolding save_batch
  save_batch-After secret ids owner bound seconds now stamp select k i w (err e) h =
      stay env d s c o
  save_batch-After secret ids owner bound seconds now stamp select k i w (ok b) h =
      let r = batch_step-Checked secret ids owner bound seconds now stamp select s h in
      let t = reclaimed now s in
      let (few, offered, apart) = acceptable→ (on_offer t ids) _ r.chosen r.accepted in
      elim (settle-next secret owner now stamp seconds s t r.chosen r.settled).1 [
        | inl e ↦ rw e (stay env d s c o)
        | inr (at, expiry, e) ↦ rw e (
            written-After env d s c o at (install_all secret owner expiry 0 r.chosen t)
              (install_all-valid env secret owner expiry 0 r.chosen t k w
                (chosen-is_id t ids r.chosen i offered)
                (reclaimed-valid env s now (current-valid env d c)))
              (generation-install_all secret owner expiry 0 r.chosen t ∙ (unfold reclaimed in refl))
              (Evolves-trans s t _ (reclaimed-Evolves s now)
                (install_all-Evolves secret owner expiry 0 r.chosen t)))
      ]

  owner-is_id : (owner : String) → s.owner ≡ owner → is_id owner ≡ true
  unfolding validate
  owner-is_id owner same = ground (arith, current-valid env d c)

  pub claim_many-After :
      (secret : ℕ → String) (ids : List String) (owner : String) (bound : ℕ) (seconds : ℤ)
      → (now stamp : ℕ) (select : Selector) → ((n : ℕ) → is_id (secret n) ≡ true)
      → After env s (claim_many env d secret ids owner bound seconds now stamp select).1
  unfolding claim_many save_batch
  claim_many-After secret ids owner bound seconds now stamp select k =
      guarded-After env d s c o (leb 1 bound) _ _ λ _.
        guarded-After env d s c o (is_positive seconds) _ _ λ _.
          guarded-After env d s c o (all is_id ids && distinct ids) _ _ λ i.
            elim (opened-cases env d s c o owner none) [
              | inr (e, h) ↦ rw h (stay env d s c o)
              | inl (h, same) ↦ rw h (
                  save_batch-After secret ids owner bound seconds now stamp select k
                    (and-true (all is_id ids) (distinct ids) i).0 (owner-is_id owner same) _ refl)
            ]
