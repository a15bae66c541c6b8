-- ===== src/Scheduler/Ready.antt =====
-- What a task in the ready list fulfils.
use project_development_skil.Base.{
  ℕ, ◌≤◌, String, Bool, true, false, Option, none, some, List, [], ◌∷◌, ◌≡◌, refl, arith, All, all,
  keep-All, cons_if, leb, if◌then◌else◌,
}
use project_development_skil.Dict
use project_development_skil.Dict.{Dict}
use project_development_skil.Store.State.{PlanTask, Snapshot, is_terminal_task}
use project_development_skil.Scheduler.{
  ready_ids, ready_in, task_map, status_of, is_done, holds, is_open, open_waves, minimum, runnable,
  sorted, keys,
}

-- The wave is none after that of a task which is not terminal.
abbrev IsFirst : ℕ → Snapshot → Dict PlanTask → Type 0
IsFirst wave s [] = Unit
IsFirst wave s ((task_id, t) ∷ ts) =
    (is_terminal_task (status_of s task_id t) ≡ false → wave ≤ t.wave) × IsFirst wave s ts

-- A task of the plan, not terminal, without an active lease, all of whose dependencies are
-- completed, in the first wave that has a task which is not terminal.
pub record IsReady (now : Option ℕ) (s : Snapshot) (task_id : String) : Type 0 where
  pub task : PlanTask
  pub planned : Dict.get task_id (task_map s) ≡ some task
  pub was_open : is_terminal_task (status_of s task_id task) ≡ false
  pub unleased : holds now (Dict.get task_id s.leases) ≡ false
  pub first : IsFirst task.wave s (task_map s)
  pub unblocked : all (is_done s) task.depends_on ≡ true

All-le : (a b : ℕ) (ns : List ℕ) → a ≤ b → All (λ m. b ≤ m) ns → All (λ m. a ≤ m) ns
All-le a b [] h k = tt
All-le a b (n ∷ ns) h (k, ks) = (omega arith, All-le a b ns h ks)

-- The smaller of two numbers is no greater than either.
smaller-le : (a b : ℕ) → let m = if leb a b then a else b in (m ≤ a) × (m ≤ b)
smaller-le a b = ground arith

minimum-le : (n : ℕ) (ns : List ℕ) → (minimum n ns ≤ n) × All (λ m. minimum n ns ≤ m) ns
unfolding minimum
minimum-le n [] = (omega arith, tt)
minimum-le n (m ∷ ms) =
    let (a, b) = minimum-le n ms in
    let (c, d) = smaller-le (minimum n ms) m in (omega arith, (d, All-le _ (minimum n ms) ms c b))

cons_if-tail :
    (b : Bool) (x wave : ℕ) (xs : List ℕ)
    → All (λ m. wave ≤ m) (cons_if b x xs)
    → (b ≡ true → wave ≤ x) × All (λ m. wave ≤ m) xs
cons_if-tail true x wave xs (h, k) = (λ e. h, k)
cons_if-tail false x wave xs h = (λ e. cc, h)

All-open_waves :
    (s : Snapshot) (d : Dict PlanTask) (wave : ℕ)
    → All (λ m. wave ≤ m) (open_waves s d)
    → IsFirst wave s d
unfolding open_waves is_open
All-open_waves s [] wave h = tt
All-open_waves s ((k, t) ∷ d) wave h =
    let (a, b) = cons_if-tail (is_open s (k, t)) t.wave wave (open_waves s d) h in
    (λ e. a (rw e refl), All-open_waves s d wave b)

runnable-IsReady :
    (now : Option ℕ) (s : Snapshot) (wave : ℕ) (k : String)
    → IsFirst wave s (task_map s)
    → (o : Option PlanTask) → Dict.get k (task_map s) ≡ o
    → runnable now s wave k o ≡ true
    → IsReady now s k
unfolding runnable
runnable-IsReady now s wave k f none e h = cc
runnable-IsReady now s wave k f (some t) e h =
    let same : t.wave ≡ wave = ground arith in
    record {
      task = t;
      planned = e;
      was_open = ground arith;
      unleased = ground arith;
      first = rw same f;
      unblocked = ground arith;
    }

All-map {ℓ} :
    {A : Type ℓ} (P Q : A → Type 0) → ((x : A) → P x → Q x) → (xs : List A) → All P xs → All Q xs
All-map P Q f [] h = tt
All-map P Q f (x ∷ xs) (h, k) = (f x h, All-map P Q f xs k)

ready_in-IsReady :
    (now : Option ℕ) (s : Snapshot) (ws : List ℕ)
    → ((wave : ℕ) → All (λ m. wave ≤ m) ws → IsFirst wave s (task_map s))
    → All (IsReady now s) (ready_in now s ws)
unfolding ready_in
ready_in-IsReady now s [] f = tt
ready_in-IsReady now s (w ∷ ws) f =
    All-map _ (IsReady now s)
      (λ k. runnable-IsReady now s (minimum w ws) k (f (minimum w ws) (minimum-le w ws)) _ refl) _
      (keep-All _ (sorted (keys (task_map s))))

-- Every id in the ready list is ready.
pub ready_ids-IsReady : (now : Option ℕ) (s : Snapshot) → All (IsReady now s) (ready_ids now s)
unfolding ready_ids
ready_ids-IsReady now s =
    ready_in-IsReady now s (open_waves s (task_map s)) (All-open_waves s (task_map s))
