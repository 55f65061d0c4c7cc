-- ===== src/TeamContext/Allowed.antt =====
-- Which updates of the team's context are sent.
use minori.Common.{
  ◌≤◌, ◌≡◌, refl, sym, ◌∙◌, ◌⊎◌, inl, inr, String, List, Option, none, some, true, ltb, ◌==◌,
  ==_iff, arith, Bool-cases,
}
use minori.TeamContext.{SnapshotRow, InvalidationCategory, team_context_missing}
use minori.TeamContext.Text.{normalize_team_context, replace_exactly_once, mechanical_sequence}
use minori.TeamContext.Source.{
  Options, Document, Error, Fetched, fetched, fetch_failed, Outside, invalidation_for,
}
use minori.TeamContext.Update.{
  patched, patch_conflict, patch_failed, MutationReason, mechanical_cleanup, UpdateInput, Patch,
  PatchAnswer, is_mechanical, is_permitted, patch_of, invalidates_for, failed_by, failed,
  patch_answered, propose, update_fetched, update,
}
use minori.TeamContext.Replaced.{Replaces, replace-Replaces, texts_eq→eq}

-- The patch is the one that was asked for, of the passage that the document has once, at the revision
-- that was read; the changed text is within the budget; and either it is a mechanical cleanup that
-- keeps the sequence of entries, or the change was approved.
pub record IsAllowed (opt : Options) (i : UpdateInput) (d : Document) (p : Patch) : Type 0 where
  pub own : d.token ≡ opt.document_token
  pub call : p ≡ patch_of opt i d
  pub changed : String
  pub replaces : Replaces d.markdown i.pattern i.replacement changed
  pub fits : opt.estimate_tokens (normalize_team_context changed) ≤ opt.token_budget
  pub permitted :
      ((i.reason ≡ mechanical_cleanup)
        × (mechanical_sequence d.markdown ≡ mechanical_sequence (normalize_team_context changed)))
      ⊎ (i.semantic_change_approved ≡ true)

mechanical_reason : (r : MutationReason) → is_mechanical r ≡ true → r ≡ mechanical_cleanup
mechanical_reason mechanical_cleanup h = refl
mechanical_reason r h = absurd (cc)

permitted_cases :
    (i : UpdateInput) (current proposed : String)
    → is_permitted i current proposed ≡ true
    → ((i.reason ≡ mechanical_cleanup)
        × (mechanical_sequence current ≡ mechanical_sequence proposed))
      ⊎ (i.semantic_change_approved ≡ true)
unfolding is_permitted
permitted_cases i current proposed h = elim (Bool-cases (is_mechanical i.reason)) [
  | inl m ↦ inl (mechanical_reason i.reason m, texts_eq→eq _ _ (rw m at h))
  | inr m ↦ inr (rw m at h)
]

invalidates-sends :
    (opt : Options) (o : Outside) (call : Option Patch) (rows : List SnapshotRow)
    (c : InvalidationCategory)
    → (invalidates_for opt o call rows c).patch ≡ call
unfolding invalidates_for
invalidates-sends opt o call rows c = elim (Bool-cases (o.store_answers 0)) [
  | inl a ↦ rw a refl
  | inr a ↦ rw a refl
]

failed-sends :
    (opt : Options) (o : Outside) (call : Option Patch) (e : Error) (rows : List SnapshotRow)
    → (failed opt o call e rows).patch ≡ call
unfolding failed failed_by
failed-sends opt o call e rows = elim (Bool-cases o.is_aborted) [
  | inl a ↦ rw a refl
  | inr a ↦ rw a (by_category (invalidation_for e))
]
  where
    by_category : (c : Option InvalidationCategory) → (failed_by opt o call e rows c).patch ≡ call
    by_category none = refl
    by_category (some c) = invalidates-sends opt o call rows c

answered-sends :
    (opt : Options) (o : Outside) (call : Patch) (rows : List SnapshotRow) (answer : PatchAnswer)
    → (patch_answered opt o call rows answer).patch ≡ some call
unfolding patch_answered
answered-sends opt o call rows (patched revision) = refl
answered-sends opt o call rows patch_conflict = refl
answered-sends opt o call rows (patch_failed e) = failed-sends opt o (some call) e rows

propose-IsAllowed :
    (opt : Options) (o : Outside) (i : UpdateInput) (d : Document) (answer : PatchAnswer)
    (rows : List SnapshotRow) (p : Patch) (x : Option String)
    → d.token ≡ opt.document_token
    → replace_exactly_once d.markdown i.pattern i.replacement ≡ x
    → (propose opt o i d answer rows x).patch ≡ some p
    → IsAllowed opt i d p
unfolding propose
propose-IsAllowed opt o i d answer rows p none own r h = absurd (cc)
propose-IsAllowed opt o i d answer rows p (some changed) own r h =
    let proposed = normalize_team_context changed in
    elim (Bool-cases (is_permitted i d.markdown proposed)) [
      | inr no_ ↦ absurd (ground arith)
      | inl allowed ↦ elim (Bool-cases (ltb opt.token_budget (opt.estimate_tokens proposed))) [
        | inl over ↦ absurd (ground arith)
        | inr within ↦
            let sent = rw within at (rw allowed at h) in
            let given = sym (answered-sends opt o (patch_of opt i d) rows answer) ∙ sent in
            record {
              own = own;
              call = ground arith;
              changed = changed;
              replaces = replace-Replaces d.markdown i.pattern i.replacement changed r;
              fits = ground arith;
              permitted = permitted_cases i d.markdown proposed allowed;
            }
      ]
    ]

fetched-IsAllowed :
    (opt : Options) (o : Outside) (i : UpdateInput) (d : Document) (answer : PatchAnswer)
    (rows : List SnapshotRow) (p : Patch)
    → (update_fetched opt o i d answer rows).patch ≡ some p
    → IsAllowed opt i d p
unfolding update_fetched
fetched-IsAllowed opt o i d answer rows p h = elim (Bool-cases (d.token == opt.document_token)) [
  | inl own ↦
      propose-IsAllowed opt o i d answer rows p _ ((==_iff d.token opt.document_token).0 own) refl
        (rw own at h)
  | inr other ↦
      absurd (ground (arith, rw other at h, invalidates-sends opt o none rows team_context_missing))
]

-- A patch that is sent to the document service is the one that was asked for, of the configured
-- document as it was read before: the passage is in its text exactly once, not counting overlaps; the
-- revision is the one that was read; the changed and normalized text is within the budget of tokens;
-- and either the reason is a mechanical cleanup and the sequence of headings and entries stays the
-- same, or the change was approved. This holds whatever the service answers to the patch.
pub sent_patch-IsAllowed :
    (opt : Options) (o : Outside) (i : UpdateInput) (read : Fetched) (answer : PatchAnswer)
    (rows : List SnapshotRow) (p : Patch)
    → (update opt o i read answer rows).patch ≡ some p
    → (d : Document) × (read ≡ fetched d) × IsAllowed opt i d p
unfolding update
sent_patch-IsAllowed opt o i (fetched d) answer rows p h =
    (d, refl, fetched-IsAllowed opt o i d answer rows p h)
sent_patch-IsAllowed opt o i (fetch_failed e) answer rows p h =
    absurd (ground (arith, failed-sends opt o none e rows))
