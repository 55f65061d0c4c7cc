-- ===== src/TeamContext/Served.antt =====
-- What `load` serves.
use minori.Common.{
  ◌+◌, ◌≤◌, ◌≡◌, refl, inl, inr, List, Option, none, some, Bool, true, false, ltb, leb, leb→le,
  ◌==◌, arith, Bool-cases, All,
}
use minori.TeamContext.{
  InvalidationCategory, team_context_missing, TeamContextSnapshot, SnapshotRow, accept,
}
use minori.TeamContext.Text.{normalize_team_context}
use minori.TeamContext.Source.{
  TeamContextStatus, loaded, stale, unavailable, over_budget, LoadedContext, Options, Document,
  Error, invalid, other_error, Fetched, fetched, fetch_failed, Outside, LoadEnd, load_returned,
  load_threw, fallback_over_budget, fallback_stale, read, invalidation_for, is_temporary,
}
use minori.TeamContext.Load.{
  invalidated, caught_other, caught_by, caught, snapshot, newer_served, accept_answered,
  within_budget, load_fetched, load,
}
use minori.TeamContext.Fits.{
  Fits, FitsIf, RowsFit, CallFits, accept-RowsFit, invalidate-RowsFit, run-RowsFit, stored-Fits,
}

-- No content is served as unavailable; stale content is not older than it may be.
abbrev pub IsFresh : Options → Outside → LoadedContext → TeamContextStatus → Type 0
IsFresh opt o c loaded = Unit {0}
IsFresh opt o c stale = o.clock 1 ≤ c.fetched_at + opt.stale_max_ms
IsFresh opt o c unavailable = ⊥
IsFresh opt o c over_budget = Unit {0}

-- What is served, if anything: within the budget, with its own estimate, and fresh.
abbrev pub IsServable : Options → Outside → TeamContextStatus → Option LoadedContext → Type 0
IsServable opt o status none = Unit {0}
IsServable opt o status (some c) =
    (c.estimated_tokens ≡ opt.estimate_tokens c.content)
    × (c.estimated_tokens ≤ opt.token_budget)
    × IsFresh opt o c status

abbrev pub EndsServable : Options → Outside → LoadEnd → Type 0
EndsServable opt o load_threw = Unit {0}
EndsServable opt o (load_returned l) = IsServable opt o l.status l.context

-- The rows fit, and what is served is servable.
abbrev Good : Options → Outside → List SnapshotRow × LoadEnd → Type 0
Good opt o (rows, end) = EndsServable opt o end × RowsFit opt rows

over_budget-EndsServable :
    (opt : Options) (o : Outside) (x : Option TeamContextSnapshot) (answers : Bool)
    → FitsIf opt x
    → EndsServable opt o (read answers (fallback_over_budget x))
unfolding fallback_over_budget
over_budget-EndsServable opt o none true f = tt
over_budget-EndsServable opt o (some s) true f = let (e, b) = f in (e, b, tt)
over_budget-EndsServable opt o x false f = tt

stale-EndsServable :
    (opt : Options) (o : Outside) (x : Option TeamContextSnapshot) (answers : Bool)
    → FitsIf opt x
    → EndsServable opt o (read answers (fallback_stale opt (o.clock 1) x))
unfolding fallback_stale
stale-EndsServable opt o none true f = tt
stale-EndsServable opt o (some s) true f =
    elim (Bool-cases (leb (o.clock 1) (s.fetched_at + opt.stale_max_ms))) [
      | inl young ↦ let (e, b) = f in rw young (e, b, leb→le _ _ young)
      | inr old ↦ rw old tt
    ]
stale-EndsServable opt o x false f = tt

invalidated-Good :
    (opt : Options) (o : Outside) (category : InvalidationCategory) (rows : List SnapshotRow)
    (answers : Bool)
    → RowsFit opt rows
    → Good opt o (invalidated opt o category rows answers)
unfolding invalidated
invalidated-Good opt o category rows true h =
    (tt, invalidate-RowsFit opt opt.document_token category (o.clock 1) rows h)
invalidated-Good opt o category rows false h = (tt, h)

caught_other-Good :
    (opt : Options) (o : Outside) (rows : List SnapshotRow) (temporary : Bool)
    → All (CallFits opt) (o.others 1)
    → RowsFit opt rows
    → Good opt o (caught_other opt o rows temporary)
unfolding caught_other
caught_other-Good opt o rows true f h =
    let seen = run-RowsFit opt (o.others 1) rows f h in
    (
      stale-EndsServable opt o _ (o.store_answers 1) (stored-Fits opt opt.document_token _ seen),
      seen,
    )
caught_other-Good opt o rows false f h = (tt, h)

caught_by-Good :
    (opt : Options) (o : Outside) (e : Error) (rows : List SnapshotRow)
    (c : Option InvalidationCategory)
    → All (CallFits opt) (o.others 1)
    → RowsFit opt rows
    → Good opt o (caught_by opt o e rows c)
unfolding caught_by
caught_by-Good opt o e rows (some category) f h =
    invalidated-Good opt o category _ (o.store_answers 1) (run-RowsFit opt (o.others 1) rows f h)
caught_by-Good opt o e rows none f h = caught_other-Good opt o rows (is_temporary e) f h

caught-Good :
    (opt : Options) (o : Outside) (e : Error) (rows : List SnapshotRow)
    → All (CallFits opt) (o.others 1)
    → RowsFit opt rows
    → Good opt o (caught opt o e rows)
unfolding caught
caught-Good opt o e rows f h = elim (Bool-cases o.is_aborted) [
  | inl a ↦ rw a (tt, h)
  | inr a ↦ rw a (caught_by-Good opt o e rows (invalidation_for e) f h)
]

newer-Good :
    (opt : Options) (o : Outside) (rows : List SnapshotRow) (answers : Bool)
    (newer : Option TeamContextSnapshot)
    → All (CallFits opt) (o.others 1)
    → RowsFit opt rows
    → FitsIf opt newer
    → Good opt o (newer_served opt o rows answers newer)
unfolding newer_served
newer-Good opt o rows true (some s) f h g = let (e, b) = g in ((e, b, tt), h)
newer-Good opt o rows true none f h g = caught-Good opt o other_error rows f h
newer-Good opt o rows false newer f h g = caught-Good opt o other_error rows f h

answered-Good :
    (opt : Options) (o : Outside) (s : TeamContextSnapshot) (rows : List SnapshotRow)
    (accepted : Bool)
    → All (CallFits opt) (o.others 1)
    → Fits opt s
    → RowsFit opt rows
    → Good opt o (accept_answered opt o s rows accepted)
unfolding accept_answered
answered-Good opt o s rows true f (e, b) h = ((e, b, tt), h)
answered-Good opt o s rows false f g h =
    let seen = run-RowsFit opt (o.others 1) rows f h in
    newer-Good opt o _ (o.store_answers 1) _ f seen (stored-Fits opt opt.document_token _ seen)

within-Good :
    (opt : Options) (o : Outside) (s : TeamContextSnapshot) (rows : List SnapshotRow)
    (answers : Bool)
    → All (CallFits opt) (o.others 1)
    → Fits opt s
    → RowsFit opt rows
    → Good opt o (within_budget opt o s rows answers)
unfolding within_budget
within-Good opt o s rows true f g h =
    answered-Good opt o s _ (accept s (o.clock 0) rows).1 f g
      (accept-RowsFit opt s (o.clock 0) rows g h)
within-Good opt o s rows false f g h = caught-Good opt o other_error rows f h

fetched-Good :
    (opt : Options) (o : Outside) (d : Document) (rows : List SnapshotRow)
    → All (CallFits opt) (o.others 0)
    → All (CallFits opt) (o.others 1)
    → RowsFit opt rows
    → Good opt o (load_fetched opt o d rows)
unfolding load_fetched snapshot
fetched-Good opt o d rows f0 f1 h =
    let seen = run-RowsFit opt (o.others 0) rows f0 h in
    elim (Bool-cases (d.token == opt.document_token)) [
      | inr other ↦ rw other (caught-Good opt o (invalid team_context_missing) rows f1 h)
      | inl own ↦
          rw own
            (elim (Bool-cases
              (ltb opt.token_budget (opt.estimate_tokens (normalize_team_context d.markdown)))) [
                | inl over ↦ rw over (
                  over_budget-EndsServable opt o _ (o.store_answers 0)
                      (stored-Fits opt opt.document_token _ seen),
                  seen,
                )
                | inr fits ↦ rw fits (
                    within-Good opt o (snapshot opt o d) _ (o.store_answers 0) f1
                      (refl, ground arith) seen)
              ])
    ]

-- If every stored snapshot, and every one that others accept meanwhile, has the estimate of its
-- content and is within the budget of tokens, then the same holds of the snapshots after a load and of
-- the content that it serves, if any; content that is served as stale is not older than allowed, and
-- none is served as unavailable. This holds whatever the document service and the store answer.
pub served_context_fits :
    (opt : Options) (o : Outside) (answer : Fetched) (rows : List SnapshotRow)
    → All (CallFits opt) (o.others 0)
    → All (CallFits opt) (o.others 1)
    → RowsFit opt rows
    → EndsServable opt o (load opt o answer rows).1 × RowsFit opt (load opt o answer rows).0
unfolding load
served_context_fits opt o (fetched d) rows f0 f1 h = fetched-Good opt o d rows f0 f1 h
served_context_fits opt o (fetch_failed e) rows f0 f1 h = caught-Good opt o e rows f1 h
