-- ===== src/Scheduler/Stale/Recovery.antt =====
-- scripts/pd_fleet/scheduler.py, `recover_stale`: proofs on its loop, with calls of others in between.
use project_development_skil.Base.{
  ℕ, String, Bool, true, false, some, List, [], ◌∷◌, ◌≡◌, refl, arith, eq_iff, leb, inl, inr,
  Bool-cases, All, str_eq, sym,
}
use project_development_skil.Dict
use project_development_skil.Dict.{Dict, get-pop, all-pop}
use project_development_skil.Store.State.{Snapshot, Env, Lease}
use project_development_skil.Store.Disk.{Result, ok, err, Disk, current, ◌>>◌}
use project_development_skil.Store.Crash.{IsOrdered}
use project_development_skil.Scheduler.{sorted, insert, str_leb}
use project_development_skil.Scheduler.Stale.{
  is_expired, stale_ids, Others, go_on, drop_one, drop_next, drop_at, drop_each, recover_from,
  recover_stale,
}
use project_development_skil.Scheduler.Stale.Later.{
  Later, Recovered, Recovered-trans, IsTame, AreClear, load-current, Cleared, Cleared-trans,
  unchanged, mutate-Cleared, unknown-clear,
}

insert-All :
    (Q : String → Type 0) (x : String) (xs : List String) → All Q (insert x xs) → Q x × All Q xs
unfolding insert
insert-All Q x [] q = q
insert-All Q x (y ∷ ys) q = elim (Bool-cases (str_leb x y)) [
  | inl h ↦ (let p = rw h at q in (p.0, p.1))
  | inr h ↦ (let p = rw h at q in let rest = insert-All Q x ys p.1 in (rest.0, (p.0, rest.1)))
]

sorted-All : (Q : String → Type 0) (xs : List String) → All Q (sorted xs) → All Q xs
unfolding sorted
sorted-All Q [] q = q
sorted-All Q (x ∷ xs) q = (let p = insert-All Q x (sorted xs) q in (p.0, sorted-All Q xs p.1))

-- Every key with an expired lease is among the stale ids.
stale_ids-All :
    (Q : String → Type 0) (now : ℕ) (leases : Dict Lease)
    → All Q (stale_ids now leases)
    → (k : String) → is_expired now (Dict.get k leases) ≡ true
    → Q k
unfolding stale_ids Dict.get
stale_ids-All Q now [] q k h = cc
stale_ids-All Q now ((j, lease) ∷ leases) q k h = elim (Bool-cases (leb lease.expires_at now)) [
  | inl old ↦
      (let p = rw old at q in
        elim (Bool-cases (str_eq j k)) [
          | inl same ↦ rw (sym ((eq_iff j k).0 same)) p.0
          | inr other ↦ stale_ids-All Q now leases p.1 k (rw other at h)
        ])
  | inr young ↦
      (let p = rw young at q in
        elim (Bool-cases (str_eq j k)) [
          | inl same ↦ absurd (ground (arith, rw same at h))
          | inr other ↦ stale_ids-All Q now leases p k (rw other at h)
        ])
]

module _ (env : Env) (others : Others) (owner : String) (now : ℕ) (stamp : String → ℕ)
    (held : String → Bool) (before_tame : (k : String) → IsTame env now held (others.before k))
    (between_tame : (k : String) → IsTame env now held (others.between k)) where
  drop_one-Cleared :
      (d : Disk) (s : Snapshot) (task_id : String)
      → current env d ≡ some s
      → IsOrdered env d
      → Cleared env now held s
          (task_id ∷ [])
          (drop_one env others d owner now (stamp task_id) task_id s)
  unfolding drop_one AreClear unchanged
  drop_one-Cleared d s task_id c o = elim (Bool-cases (Dict.has_key task_id s.leases)) [
    | inr h ↦ rw h (record {
      after = unchanged env now held d s c o;
      clear = λ a e. (unknown-clear now task_id s.leases h, tt);
    })
    | inl h ↦ rw h (
        let m = between_tame task_id d s c o in
        Cleared-trans env now held s m.next m.later (
          mutate-Cleared env now held _ m.next m.is_current m.is_ordered owner (stamp task_id)
            task_id (some s.generation)))
  ]

  drop_at-Cleared :
      (d : Disk) (s : Snapshot) (task_id : String)
      → current env d ≡ some s
      → IsOrdered env d
      → Cleared env now held s
          (task_id ∷ [])
          (drop_at env others d owner now (stamp task_id) task_id)
  unfolding drop_at drop_next
  drop_at-Cleared d s task_id c o =
      let b = before_tame task_id d s c o in
      Cleared-trans env now held s b.next b.later (
        rw (load-current env (others.before task_id d) b.is_current)
          (drop_one-Cleared (others.before task_id d) b.next task_id b.is_current b.is_ordered))

  go_on-Cleared :
      (s : Snapshot) (task_id : String) (rest : List String) (outcome : Result Snapshot × Disk)
      → ((d : Disk) (t : Snapshot)
          → current env d ≡ some t
          → IsOrdered env d
          → Cleared env now held t rest (drop_each env others owner now stamp rest d))
      → Cleared env now held s (task_id ∷ []) outcome
      → Cleared env now held s
          (task_id ∷ rest)
          (go_on (drop_each env others owner now stamp rest) outcome)
  unfolding AreClear Recovered-trans
  go_on-Cleared s task_id rest (err e, d) f r = record { after = r.after; clear = λ a h. cc }
  go_on-Cleared s task_id rest (ok u, d) f r =
      let q = f d r.after.next r.after.is_current r.after.is_ordered in
      record {
        after = Recovered-trans env now held s r.after.next _ r.after.later q.after;
        clear = λ a h. (q.after.later.settles task_id (r.clear u refl).0, q.clear a h);
      }

  drop_each-Cleared :
      (ids : List String) (d : Disk) (s : Snapshot)
      → current env d ≡ some s
      → IsOrdered env d
      → Cleared env now held s ids (drop_each env others owner now stamp ids d)
  unfolding drop_each AreClear
  drop_each-Cleared [] d s c o = record {
    after = unchanged env now held d s c o;
    clear = λ a h. tt;
  }
  drop_each-Cleared (task_id ∷ rest) d s c o =
      go_on-Cleared s task_id rest _ (drop_each-Cleared rest) (drop_at-Cleared d s task_id c o)

-- Once the stale ids of `s` are clear in a later snapshot, no lease there is expired.
all-clear :
    (now : ℕ) (held : String → Bool) (s t : Snapshot)
    → Later now held s t
    → AreClear now (sorted (stale_ids now s.leases)) t
    → (k : String) → is_expired now (Dict.get k t.leases) ≡ false
unfolding AreClear
all-clear now held s t p clear k = elim (Bool-cases (is_expired now (Dict.get k s.leases))) [
  | inl old ↦ stale_ids-All _ now s.leases (sorted-All _ _ clear) k old
  | inr young ↦ p.settles k young
]

then-ok :
    {B : Type 0} (r : Result (Unit {0})) (b c : B)
    → (r >> ok b) ≡ ok c
    → (a : Unit {0}) × (r ≡ ok a)
then-ok (ok a) b c h = (a, refl)
then-ok (err e) b c h = cc

module _ (env : Env) (others : Others) (owner : String) (now : ℕ) (stamp : String → ℕ)
    (held : String → Bool) where
  -- `recover_stale` on an ordered disk (the backup is no newer than the primary), with calls of
  -- others before each of its readings and writes in the loop, which keep the disk ordered and the
  -- record evolving, put no lease that is expired at `now` already, and give up no active lease of a
  -- task in `held`. Whether it succeeds or fails on the way, the next reader gets a snapshot that the
  -- first one evolved into, with the active leases of the tasks in `held`; and after a success no
  -- lease at all is expired at `now`.
  pub recover_stale-Recovered :
      (d : Disk) (s : Snapshot)
      → current env d ≡ some s
      → IsOrdered env d
      → ((k : String) → IsTame env now held (others.before k))
      → ((k : String) → IsTame env now held (others.between k))
      → let outcome = recover_stale env others d owner (some now) stamp in
        (r : Recovered env now held s outcome.1) × ((ids : List String)
          → outcome.0 ≡ ok ids
          → (k : String) → is_expired now (Dict.get k r.next.leases) ≡ false)
  unfolding recover_stale recover_from
  recover_stale-Recovered d s c o before between = rw (load-current env d c) (
      let q =
        drop_each-Cleared env others owner now stamp held before between
          (sorted (stale_ids now s.leases)) d s c o in
      (
        q.after,
        λ ids e k.
            all-clear now held s q.after.next q.after.later
              (q.clear (then-ok _ _ ids e).0 (then-ok _ _ ids e).1) k,
      ))
