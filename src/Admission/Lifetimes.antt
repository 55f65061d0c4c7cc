-- ===== src/Admission/Lifetimes.antt =====
-- What the transactions of all stores keep of a task: its version never falls, and a task that is
-- over keeps its state and version.
use minori.Common.{
  ℕ, ◌≤◌, ◌≡◌, refl, sym, ap, subst, ◌∙◌, inl, inr, List, some, Bool, true, false, arith,
  if◌then◌else◌, Bool-cases, ◌==◌, ==_iff,
}
use minori.Common.Table.{find, update}
use minori.Common.Table.Counts.{find-some}
use minori.Common.Table.Keys.{find-update, map_some}
use minori.Domain.{Ident}
use minori.Database.{TaskRow, Database}
use minori.Runs.{task_is}
use minori.Schedules.Change.{is_over}

pub record TaskKeeps (t t' : TaskRow) : Type 0 where
  pub version_grows : t.current_version ≤ t'.current_version
  pub over_state : is_over t.state ≡ true → t'.state ≡ t.state
  pub over_version : is_over t.state ≡ true → t'.current_version ≡ t.current_version

pub TaskKeeps-refl : (t : TaskRow) → TaskKeeps t t
TaskKeeps-refl t = ground arith

TaskKeeps-trans : (a b c : TaskRow) → TaskKeeps a b → TaskKeeps b c → TaskKeeps a c
TaskKeeps-trans a b c p q = record {
  version_grows = omega (arith, p.version_grows, q.version_grows);
  over_state = λ h. q.over_state (rw (p.over_state h) h) ∙ p.over_state h;
  over_version = λ h. q.over_version (rw (p.over_state h) h) ∙ p.over_version h;
}

-- Each task is still there, with what it keeps.
abbrev pub KeepsTasks : List TaskRow → List TaskRow → Type 0
KeepsTasks ts ts' =
    (i : Ident) (t : TaskRow)
    → find (task_is i) ts ≡ some t
    → (t' : TaskRow) × (find (task_is i) ts' ≡ some t') × TaskKeeps t t'

pub KeepsTasks-refl : (ts : List TaskRow) → KeepsTasks ts ts
KeepsTasks-refl ts i t h = (t, h, TaskKeeps-refl t)

pub KeepsTasks-trans : (a b c : List TaskRow) → KeepsTasks a b → KeepsTasks b c → KeepsTasks a c
KeepsTasks-trans a b c p q i t h =
    let (t', h', k) = p i t h in
    let (t'', h'', l) = q i t' h' in (t'', h'', TaskKeeps-trans t t' t'' k l)

-- An update keeps what its change keeps of each row that it selects.
pub KeepsTasks-update :
    (p : TaskRow → Bool) (f : TaskRow → TaskRow) (ts : List TaskRow)
    → ((t : TaskRow) → (f t).id ≡ t.id)
    → ((i : Ident) (t : TaskRow) → find (task_is i) ts ≡ some t → p t ≡ true → TaskKeeps t (f t))
    → KeepsTasks ts (update p f ts)
KeepsTasks-update p f ts same keeps i t h =
    let after =
      find-update (task_is i) p f ts (λ x. ap (λ (n : ℕ). n == i) (same x))
      ∙ ap (map_some (λ (x : TaskRow). if p x then f x else x)) h in
    elim (Bool-cases (p t)) [
      | inl hit ↦ (f t, after ∙ rw hit, keeps i t h hit)
      | inr miss ↦ (t, after ∙ rw miss, TaskKeeps-refl t)
    ]

-- The row that an update by id selects is the one that was read.
pub KeepsTasks-row :
    (id : Ident) (f : TaskRow → TaskRow) (ts : List TaskRow) (t : TaskRow)
    → find (task_is id) ts ≡ some t
    → ((x : TaskRow) → (f x).id ≡ x.id)
    → TaskKeeps t (f t)
    → KeepsTasks ts (update (task_is id) f ts)
KeepsTasks-row id f ts t read same keeps = KeepsTasks-update (task_is id) f ts same (λ i x h hit.
    let here : x.id ≡ id = (==_iff x.id id).0 hit in
    let there : x.id ≡ i = (==_iff x.id i).0 ((find-some (task_is i) ts x h).0) in
    let found : find (task_is i) ts ≡ some t =
      subst (λ k. find (task_is k) ts ≡ some t) (sym here ∙ there) read in
    let q : t ≡ x = cc in subst (λ y. TaskKeeps y (f y)) q keeps)

pub KeepsTasks-if {ℓ} :
    {R : Type ℓ} (b : Bool) (x y : Database × R) (ts : List TaskRow)
    → (b ≡ true → KeepsTasks ts x.0.tasks)
    → (b ≡ false → KeepsTasks ts y.0.tasks)
    → let out : Database × R = if b then x else y in KeepsTasks ts out.0.tasks
KeepsTasks-if true x y ts p q = p refl
KeepsTasks-if false x y ts p q = q refl
