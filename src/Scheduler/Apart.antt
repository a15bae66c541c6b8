-- ===== src/Scheduler/Apart.antt =====
-- What the selector picks: ready tasks, as many as asked for at most, whose paths are apart.
use project_development_skil.Base.{
  ℕ, ◌+◌, ◌≤◌, String, true, false, some, List, [], ◌∷◌, ◌++◌, ◌≡◌, refl, arith, All, All-append,
  length, length-append, Bool-cases, inl, inr, leb,
}
use mathlib.Core.List.{append-nil, append_assoc}
use project_development_skil.Dict
use project_development_skil.Dict.{Dict}
use project_development_skil.Store.State.{PlanTask, Snapshot}
use project_development_skil.Store.Disk.{ok, Result-cases}
use project_development_skil.Store.Batch.{mem}
use project_development_skil.Scheduler.{Posix, sorted, task_map, ready_ids}
use project_development_skil.Scheduler.Select.{
  Owner, names, task_paths, occupied, clashes, pick, pick_all, picks, select,
}

-- No owner's paths overlap with those of an owner before it.
abbrev pub IsApart : List Owner → List Owner → Type 0
IsApart before [] = Unit
IsApart before (o ∷ os) = (clashes o.1 before ≡ false) × IsApart (before ++ o ∷ []) os

module _ (posix : Posix) (tasks : Dict PlanTask) (ready : List String) (leased : List Owner) where
  -- A picked task is ready, has the paths that it owns, and they are free.
  abbrev pub IsPicked : Owner → Type 0
  IsPicked o =
      (mem o.0 ready ≡ true)
      × (task_paths posix (Dict.get o.0 tasks) ≡ ok o.1)
      × (clashes o.1 leased ≡ false)

  pub record Good (picked : List Owner) : Type 0 where
    pub all_picked : All IsPicked picked
    pub apart : IsApart [] picked

  IsApart-snoc :
      (before picked : List Owner) (o : Owner)
      → IsApart before picked
      → clashes o.1 (before ++ picked) ≡ false
      → IsApart before (picked ++ o ∷ [])
  IsApart-snoc before [] o h c = (rw (append-nil before) at c, tt)
  IsApart-snoc before (p ∷ ps) o (h, k) c =
      (h, IsApart-snoc (before ++ p ∷ []) ps o k (rw (append_assoc before (p ∷ []) ps) c))

  -- What a round has checked.
  pick-free :
      (picked : List Owner) (task_id : String) {after : List Owner}
      → pick posix tasks leased picked task_id ≡ ok after
      → (paths : List String) × (task_paths posix (Dict.get task_id tasks) ≡ ok paths)
        × (clashes paths leased ≡ false)
        × (clashes paths picked ≡ false)
        × (after ≡ picked ++ (task_id, paths) ∷ [])
  unfolding pick
  pick-free picked task_id h = elim (Result-cases (task_paths posix (Dict.get task_id tasks))) [
    | inr (e, k) ↦ absurd (ground arith)
    | inl (paths, k) ↦ (paths, k, ground arith, ground arith, ground arith)
  ]

  pick-Good :
      (picked : List Owner) (task_id : String) {after : List Owner}
      → mem task_id ready ≡ true
      → Good picked
      → pick posix tasks leased picked task_id ≡ ok after
      → Good after × (length after ≡ length picked + 1)
  pick-Good picked task_id m g h =
      let (paths, k, away, apart, e) = pick-free picked task_id h in
      rw e (
        record {
          all_picked = All-append IsPicked picked _ g.all_picked ((m, k, away), tt);
          apart = IsApart-snoc [] picked (task_id, paths) g.apart apart;
        },
        length-append picked _,
      )

  pick_all-Good :
      (requested : ℕ) (ids : List String) (picked : List Owner) {after : List Owner}
      → length picked ≤ requested
      → Good picked
      → pick_all posix tasks ready requested leased ids picked ≡ ok after
      → Good after × (length after ≤ requested)
  unfolding pick_all
  pick_all-Good requested [] picked {after} b g h =
      let e : after ≡ picked = ground arith in rw e (g, b)
  pick_all-Good requested (tid ∷ ids) picked {after} b g h =
      elim (Bool-cases (leb requested (length picked))) [
        | inl full ↦ (let e : after ≡ picked = ground arith in rw e (g, b))
        | inr room ↦ elim (Bool-cases (mem tid ready)) [
          | inr unlisted ↦ pick_all-Good requested ids picked b g (ground arith)
          | inl listed ↦ elim (Result-cases (pick posix tasks leased picked tid)) [
            | inr (e, k) ↦ absurd (ground arith)
            | inl (more, k) ↦
                (let (good, n) = pick-Good picked tid listed g k in
                  pick_all-Good requested ids more (ground (arith, n, room)) good (ground arith))
          ]
        ]
      ]

module _ (posix : Posix) (requested : ℕ) (s : Snapshot) (available : List String) where
  -- What is known of the ids that `select` gives: the owners they come from.
  pub record Selection (capacity now : ℕ) (chosen : List String) : Type 0 where
    pub picked : List Owner
    pub leased : List Owner
    pub occupying : occupied posix (task_map s) now s.leases ≡ ok leased
    pub chosen_names : chosen ≡ names picked
    pub good : Good posix (task_map s) (ready_ids (some now) s) leased picked
    pub few : length picked ≤ requested
    pub fits : requested ≤ capacity

  picks-Good :
      (capacity now : ℕ) {picked : List Owner}
      → picks posix requested s available capacity now ≡ ok picked
      → Selection capacity now (names picked)
  unfolding picks
  picks-Good capacity now {picked} h =
      elim (Result-cases (occupied posix (task_map s) now s.leases)) [
        | inr (e, k) ↦ absurd (ground arith)
        | inl (leased, k) ↦
            (let (good, few) =
                pick_all-Good posix (task_map s) (ready_ids (some now) s) leased requested
                  (sorted available) [] (omega arith) (record { all_picked = tt; apart = tt })
                  (ground arith) in
              record {
                picked = picked;
                leased = leased;
                occupying = k;
                chosen_names = refl;
                good = good;
                few = few;
                fits = ground arith;
              })
      ]

  -- The ids that the scheduler's selector gives are no more than asked for, which is no more than
  -- the capacity; each is ready; and its paths overlap neither with those of a leased task nor
  -- with those of an id before it.
  pub select-Selection :
      (capacity now : ℕ) {chosen : List String}
      → select posix requested s available capacity now ≡ ok chosen
      → Selection capacity now chosen
  unfolding select
  select-Selection capacity now {chosen} h =
      elim (Result-cases (picks posix requested s available capacity now)) [
        | inr (e, k) ↦ absurd (ground arith)
        | inl (picked, k) ↦
            (let e : chosen ≡ names picked = ground arith in rw e (picks-Good capacity now k))
      ]
