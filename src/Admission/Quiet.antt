-- ===== src/Admission/Quiet.antt =====
-- Moves of the run store and of the registry that put no run in processing.
use mathlib.Core.List.{Memᴰ}
use minori.Common.{
  ℕ, is_some, ◌≤◌, ◌≡◌, refl, sym, ap, subst, ◌∙◌, inl, inr, List, [], ◌∷◌, ◌++◌, some, Bool, true,
  false, arith, if◌then◌else◌, Bool-cases, ◌==◌, ==_iff,
}
use minori.Common.Table.{count, find, update}
use minori.Common.Table.Counts.{count-update-antitone, count-update-eq, count-append}
use minori.Common.Table.Keys.{find-update, find-append, map_some}
use minori.Domain.{Ident}
use minori.Database.{RunRow, Database, run_is_processing}
use minori.Events.Capacity.{processing_runs}
use minori.Events.Turns.{append_mem}
use minori.Runs.{run_is}

abbrev pub HasUniqueRuns : List RunRow → Type 0
HasUniqueRuns rs = (i : Ident) → count (run_is i) rs ≤ 1

-- A delivery and a fallback that were begun stay begun.
pub record RunKeeps (r r' : RunRow) : Type 0 where
  pub delivery_stays :
      is_some r.delivery_attempted_at ≡ true → is_some r'.delivery_attempted_at ≡ true
  pub fallback_stays :
      is_some r.fallback_attempted_at ≡ true → is_some r'.fallback_attempted_at ≡ true

pub RunKeeps-refl : (r : RunRow) → RunKeeps r r
RunKeeps-refl r = record { delivery_stays = λ h. h; fallback_stays = λ h. h }

pub RunKeeps-trans : (a b c : RunRow) → RunKeeps a b → RunKeeps b c → RunKeeps a c
RunKeeps-trans a b c p q = record {
  delivery_stays = λ h. q.delivery_stays (p.delivery_stays h);
  fallback_stays = λ h. q.fallback_stays (p.fallback_stays h);
}

-- Each run is still there, with what was begun.
abbrev pub KeepsRows : List RunRow → List RunRow → Type 0
KeepsRows rs rs' =
    (i : Ident) (r : RunRow)
    → find (run_is i) rs ≡ some r
    → (r' : RunRow) × (find (run_is i) rs' ≡ some r') × RunKeeps r r'

pub KeepsRows-refl : (rs : List RunRow) → KeepsRows rs rs
KeepsRows-refl rs i r h = (r, h, RunKeeps-refl r)

pub KeepsRows-trans : (a b c : List RunRow) → KeepsRows a b → KeepsRows b c → KeepsRows a c
KeepsRows-trans a b c p q i r h =
    let (r', h', k) = p i r h in
    let (r'', h'', l) = q i r' h' in (r'', h'', RunKeeps-trans r r' r'' k l)

pub run-update :
    (i : Ident) (p : RunRow → Bool) (f : RunRow → RunRow) (rs : List RunRow) (r : RunRow)
    → ((x : RunRow) → (f x).id ≡ x.id)
    → find (run_is i) rs ≡ some r
    → find (run_is i) (update p f rs) ≡ some (if p r then f r else r)
run-update i p f rs r same h =
    find-update (run_is i) p f rs (λ x. ap (λ (n : ℕ). n == i) (same x))
    ∙ ap (map_some (λ (x : RunRow). if p x then f x else x)) h

pub KeepsRows-update :
    (p : RunRow → Bool) (f : RunRow → RunRow) (rs : List RunRow)
    → ((r : RunRow) → (f r).id ≡ r.id)
    → ((r : RunRow) → RunKeeps r (f r))
    → KeepsRows rs (update p f rs)
KeepsRows-update p f rs same keeps i r h = elim (Bool-cases (p r)) [
  | inl hit ↦ (f r, run-update i p f rs r same h ∙ rw hit, keeps r)
  | inr miss ↦ (r, run-update i p f rs r same h ∙ rw miss, RunKeeps-refl r)
]

-- Every run in processing was so before, for the same chat.
pub record Quiet (rs rs' : List RunRow) : Type 0 where
  pub fewer : processing_runs rs' ≤ processing_runs rs
  pub kept :
      (r' : RunRow)
      → Memᴰ r' rs'
      → run_is_processing r'.status ≡ true
      → (r : RunRow) × Memᴰ r rs
        × (run_is_processing r.status ≡ true)
        × (r.result_target.chat_id ≡ r'.result_target.chat_id)
  pub ids : HasUniqueRuns rs → HasUniqueRuns rs'
  pub rows : KeepsRows rs rs'

-- A row that keeps its id, and in processing its chat.
pub record IsQuiet (r r' : RunRow) : Type 0 where
  pub same_id : r'.id ≡ r.id
  pub was_processing : run_is_processing r'.status ≡ true → run_is_processing r.status ≡ true
  pub same_chat :
      run_is_processing r'.status ≡ true → r.result_target.chat_id ≡ r'.result_target.chat_id
  pub keeps : RunKeeps r r'

pub Quiet-refl : (rs : List RunRow) → Quiet rs rs
Quiet-refl rs = record {
  fewer = omega arith;
  kept = λ r m b. (r, m, b, refl);
  ids = λ u. u;
  rows = KeepsRows-refl rs;
}

pub Quiet-trans : (a b c : List RunRow) → Quiet a b → Quiet b c → Quiet a c
Quiet-trans a b c p q = record {
  fewer = omega (arith, p.fewer, q.fewer);
  kept = λ r'' m busy.
      let (r', m', busy', e') = q.kept r'' m busy in
      let (r, k, was, e) = p.kept r' m' busy' in (r, k, was, e ∙ e');
  ids = λ u. q.ids (p.ids u);
  rows = KeepsRows-trans a b c p.rows q.rows;
}

pub mem-update :
    (p : RunRow → Bool) (f : RunRow → RunRow) (rs : List RunRow) (r : RunRow)
    → Memᴰ r (update p f rs)
    → (x : RunRow) × Memᴰ x rs × (r ≡ (if p x then f x else x))
mem-update p f [] r m = elim m [ ]
mem-update p f (x ∷ xs) r (Memᴰ.head q) = (x, Memᴰ.head refl, q)
mem-update p f (x ∷ xs) r (Memᴰ.tail m) =
    let (y, k, q) = mem-update p f xs r m in (y, Memᴰ.tail k, q)

pub Quiet-update :
    (p : RunRow → Bool) (f : RunRow → RunRow) (rs : List RunRow)
    → ((r : RunRow) → IsQuiet r (f r))
    → Quiet rs (update p f rs)
Quiet-update p f rs quiet = record {
  fewer =
      count-update-antitone (λ r. run_is_processing r.status) p f rs
        (λ r. (quiet r).was_processing);
  kept = λ r' m b. came_from r' (mem-update p f rs r' m) b;
  ids = λ u i.
      subst (λ n. n ≤ 1)
        (sym (count-update-eq (run_is i) p f rs (λ r. ap (λ (n : ℕ). n == i) ((quiet r).same_id))))
        (u i);
  rows = KeepsRows-update p f rs (λ r. (quiet r).same_id) (λ r. (quiet r).keeps);
}
  where
    came_from :
        (r' : RunRow)
        → (x : RunRow) × Memᴰ x rs × (r' ≡ (if p x then f x else x))
        → run_is_processing r'.status ≡ true
        → (r : RunRow) × Memᴰ r rs
          × (run_is_processing r.status ≡ true)
          × (r.result_target.chat_id ≡ r'.result_target.chat_id)
    came_from r' (x, k, q) b = elim (Bool-cases (p x)) [
      | inl hit ↦
          let q' : r' ≡ f x = q ∙ rw hit in
          let b' : run_is_processing (f x).status ≡ true = rw q' at b in
          (
            x,
            k,
            (quiet x).was_processing b',
            (quiet x).same_chat b' ∙ sym (ap (λ y. y.result_target.chat_id) q'),
          )
      | inr miss ↦
          let q' : r' ≡ x = q ∙ rw miss in
          (x, k, (rw q' at b), sym (ap (λ y. y.result_target.chat_id) q'))
    ]

pub Quiet-append :
    (rs : List RunRow) (r : RunRow)
    → run_is_processing r.status ≡ false
    → count (run_is r.id) rs ≡ 0
    → Quiet rs (rs ++ r ∷ [])
Quiet-append rs r idle fresh = record {
  fewer = ground (arith, count-append (λ x. run_is_processing x.status) rs (r ∷ []));
  kept = λ r' m b. elim (append_mem rs r r' m) [
    | inl old ↦ (r', old, b, refl)
    | inr new ↦ absurd (ground arith)
  ];
  ids = λ u i. elim (Bool-cases (r.id == i)) [
    | inl same ↦
        let none_before : count (run_is i) rs ≡ 0 =
          subst (λ k. count (run_is k) rs ≡ 0) ((==_iff r.id i).0 same) fresh in
        ground (arith, count-append (run_is i) rs (r ∷ []))
    | inr other ↦ ground (arith, u i, count-append (run_is i) rs (r ∷ []))
  ];
  rows = λ i x h. (x, find-append (run_is i) rs (r ∷ []) ∙ rw h refl, RunKeeps-refl x);
}

-- A move that leaves the events alone and is quiet on the runs.
pub record Peaceful (db db' : Database) : Type 0 where
  pub same_events : db'.events ≡ db.events
  pub quiet_runs : Quiet db.runs db'.runs

pub Peaceful-refl : (db : Database) → Peaceful db db
Peaceful-refl db = record { same_events = refl; quiet_runs = Quiet-refl db.runs }

pub Peaceful-trans : (a b c : Database) → Peaceful a b → Peaceful b c → Peaceful a c
Peaceful-trans a b c p q = record {
  same_events = q.same_events ∙ p.same_events;
  quiet_runs = Quiet-trans a.runs b.runs c.runs p.quiet_runs q.quiet_runs;
}

pub Peaceful-if {ℓ} :
    {R : Type ℓ} (b : Bool) (x y : Database × R) (db : Database)
    → (b ≡ true → Peaceful db x.0)
    → (b ≡ false → Peaceful db y.0)
    → let out : Database × R = if b then x else y in Peaceful db out.0
Peaceful-if true x y db p q = p refl
Peaceful-if false x y db p q = q refl
