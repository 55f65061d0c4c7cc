-- ===== src/TeamContext/Fits.antt =====
-- Snapshots within the budget of tokens, and what the transactions of the store do to them.
use minori.Common.{
  ◌≤◌, ◌≡◌, inl, inr, List, [], ◌∷◌, Option, none, some, Bool, Bool-cases, All, All-append, ◌>>=◌,
}
use minori.Common.Table.{exists, find, update}
use minori.Domain.{Ident, Time}
use minori.TeamContext.{
  InvalidationCategory, TeamContextSnapshot, SnapshotRow, StoreCall, accepts_snapshot, invalidates,
  has_token, snapshot_of, accepts, accepted_row, invalidated_row, accept, invalidate, apply, run,
  load as load_stored,
}
use minori.TeamContext.Source.{Options}

-- The estimate that is kept is that of the content, and within the budget.
abbrev pub Fits : Options → TeamContextSnapshot → Type 0
Fits opt s =
    (s.estimated_tokens ≡ opt.estimate_tokens s.normalized_content)
    × (s.estimated_tokens ≤ opt.token_budget)

abbrev pub FitsIf : Options → Option TeamContextSnapshot → Type 0
FitsIf opt none = Unit {0}
FitsIf opt (some s) = Fits opt s

abbrev pub RowFits : Options → SnapshotRow → Type 0
RowFits opt r = FitsIf opt (snapshot_of r)

abbrev pub RowsFit : Options → List SnapshotRow → Type 0
RowsFit opt rows = All (RowFits opt) rows

abbrev pub CallFits : Options → StoreCall → Type 0
CallFits opt (accepts_snapshot s now) = Fits opt s
CallFits opt (invalidates token category now) = Unit {0}

accepted-RowFits :
    (opt : Options) (s : TeamContextSnapshot) (now : Time)
    → Fits opt s
    → RowFits opt (accepted_row s now)
unfolding snapshot_of
accepted-RowFits opt s now f = f

invalidated-RowFits :
    (opt : Options) (token : Ident) (category : InvalidationCategory) (now : Time)
    → RowFits opt (invalidated_row token category now)
unfolding snapshot_of
invalidated-RowFits opt token category now = tt

update-RowsFit :
    (opt : Options) (p : SnapshotRow → Bool) (r : SnapshotRow) (rows : List SnapshotRow)
    → RowFits opt r
    → RowsFit opt rows
    → RowsFit opt (update p (λ x. r) rows)
update-RowsFit opt p r [] f h = tt
update-RowsFit opt p r (x ∷ xs) f h = elim (Bool-cases (p x)) [
  | inl e ↦ (rw e f, update-RowsFit opt p r xs f h.1)
  | inr e ↦ (rw e (h.0), update-RowsFit opt p r xs f h.1)
]

pub accept-RowsFit :
    (opt : Options) (s : TeamContextSnapshot) (now : Time) (rows : List SnapshotRow)
    → Fits opt s
    → RowsFit opt rows
    → RowsFit opt (accept s now rows).0
unfolding accept
accept-RowsFit opt s now rows f h = elim (Bool-cases (exists (has_token s.document_token) rows)) [
  | inl e ↦
      rw e
        (update-RowsFit opt (accepts s) (accepted_row s now) rows (accepted-RowFits opt s now f) h)
  | inr e ↦ rw e (All-append (RowFits opt) rows _ h (accepted-RowFits opt s now f, tt))
]

pub invalidate-RowsFit :
    (opt : Options) (token : Ident) (category : InvalidationCategory) (now : Time)
    (rows : List SnapshotRow)
    → RowsFit opt rows
    → RowsFit opt (invalidate token category now rows)
unfolding invalidate
invalidate-RowsFit opt token category now rows h =
    elim (Bool-cases (exists (has_token token) rows)) [
      | inl e ↦ rw e (
          update-RowsFit opt (has_token token) _ rows (invalidated-RowFits opt token category now)
            h)
      | inr e ↦
          rw e (All-append (RowFits opt) rows _ h (invalidated-RowFits opt token category now, tt))
    ]

pub run-RowsFit :
    (opt : Options) (cs : List StoreCall) (rows : List SnapshotRow)
    → All (CallFits opt) cs
    → RowsFit opt rows
    → RowsFit opt (run cs rows)
unfolding run apply
run-RowsFit opt [] rows f h = h
run-RowsFit opt (accepts_snapshot s now ∷ cs) rows f h =
    run-RowsFit opt cs _ f.1 (accept-RowsFit opt s now rows f.0 h)
run-RowsFit opt (invalidates token category now ∷ cs) rows f h =
    run-RowsFit opt cs _ f.1 (invalidate-RowsFit opt token category now rows h)

find-RowFits :
    (opt : Options) (p : SnapshotRow → Bool) (rows : List SnapshotRow)
    → RowsFit opt rows
    → FitsIf opt (find p rows >>= snapshot_of)
find-RowFits opt p [] h = tt
find-RowFits opt p (x ∷ xs) h = elim (Bool-cases (p x)) [
  | inl e ↦ rw e h.0
  | inr e ↦ rw e (find-RowFits opt p xs h.1)
]

pub stored-Fits :
    (opt : Options) (token : Ident) (rows : List SnapshotRow)
    → RowsFit opt rows
    → FitsIf opt (load_stored token rows)
unfolding load_stored
stored-Fits opt token rows h = find-RowFits opt (has_token token) rows h
