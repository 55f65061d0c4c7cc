-- ===== src/Gateway/Attached.antt =====
-- What a stored message has come to, and the attachment of its reaction.
use minori.Common.{
  ◌≤◌, ◌≡◌, refl, ◌∙◌, ◌⊎◌, inl, inr, List, [], ◌∷◌, ◌++◌, Option, none, some, Bool, true, false,
  ◌&&◌, ◌==◌, ==_iff, if◌then◌else◌, is_none, arith, Bool-cases,
}
use minori.Common.Table.{count, exists, find, update}
use minori.Common.Table.Counts.{exists-append, find-none}
use minori.Common.Table.Keys.{find-and}
use minori.Domain.{Ident, Time, NormalizedMessage}
use minori.Database.{EventRow, is_active}
use minori.Events.{attach_processing_reaction, attached_row}
use minori.Events.Calls.{Call, apply, run}
use minori.Events.Rows.{HasUniqueIds, has_id, row, row-update, row-id}
use minori.Events.Lives.{apply-HasUniqueIds}
use minori.Gateway.Handle.{
  CallEnd, answers, loses_answer, fails, Outside, Action, signals_worker, adds_reaction,
  removes_reaction, warns, signal, remove, Ending, Handled, attach,
}

abbrev pub is_signal : Action → Bool
is_signal signals_worker = true
is_signal _ = false

abbrev pub is_reaction : Action → Bool
is_reaction (adds_reaction m) = true
is_reaction _ = false

abbrev pub is_removal : Ident → Ident → Action → Bool
is_removal m r (removes_reaction n s) = m == n && r == s
is_removal m r _ = false

-- A reaction that was added is noted in the event's row, or was given to be removed.
abbrev pub IsKept : NormalizedMessage → Option (Option Ident) → Option Ident → List Action → Type 0
IsKept m (some (some r)) noted cs =
    (noted ≡ some r) ⊎ (exists (is_removal m.message_id r) cs ≡ true)
IsKept m reaction noted cs = Unit {0}

-- The event of `m` is stored and the worker signalled, and the reaction is not lost.
pub record Answered (m : NormalizedMessage) (reaction : Option (Option Ident)) (done : Handled)
    : Type 0 where
  pub stored : EventRow
  pub found : row m.event_id done.rows ≡ some stored
  pub same : stored.payload ≡ m
  pub signalled : exists is_signal done.actions ≡ true
  pub returned : done.ended ≡ Ending.returned
  pub reaction_kept : IsKept m reaction stored.processing_reaction_id done.actions

-- More calls keep it so.
pub IsKept-append :
    (m : NormalizedMessage) (reaction : Option (Option Ident)) (noted : Option Ident)
    (cs ds : List Action)
    → IsKept m reaction noted cs ⊎ IsKept m reaction noted ds
    → IsKept m reaction noted (cs ++ ds)
IsKept-append m none noted cs ds h = tt
IsKept-append m (some none) noted cs ds h = tt
IsKept-append m (some (some r)) noted cs ds (inl (inl there)) = inl there
IsKept-append m (some (some r)) noted cs ds (inr (inl there)) = inl there
IsKept-append m (some (some r)) noted cs ds (inl (inr gone)) =
    inr (exists-append (is_removal m.message_id r) cs ds ∙ rw gone refl)
IsKept-append m (some (some r)) noted cs ds (inr (inr gone)) =
    inr (exists-append (is_removal m.message_id r) cs ds ∙ ground arith)

pub run-HasUniqueIds :
    (cs : List Call) (es : List EventRow) → HasUniqueIds es → HasUniqueIds (run cs es)
unfolding run
run-HasUniqueIds [] es u = u
run-HasUniqueIds (c ∷ cs) es u = run-HasUniqueIds cs (apply c es) (apply-HasUniqueIds c es u)

-- With unique ids, a selection by id and a test that has one row has the row of that id.
hit_of_count :
    (i : Ident) (q : EventRow → Bool) (es : List EventRow) (e : EventRow)
    → row i es ≡ some e
    → count (has_id i) es ≤ 1
    → count (λ x. has_id i x && q x) es ≡ 1
    → q e ≡ true
hit_of_count i q es e h u k = elim (Bool-cases (q e)) [
  | inl yes_ ↦ yes_
  | inr f ↦
      let gone : find (λ x. has_id i x && q x) es ≡ none = find-and (has_id i) q es e u h ∙ rw f in
      absurd (ground (arith, find-none (λ x. has_id i x && q x) es gone))
]

-- What holds of the calls so far holds once the worker is signalled.
pub signal-Answered :
    (o : Outside) (m : NormalizedMessage) (reaction : Option (Option Ident)) (rows : List EventRow)
    (e : EventRow) (cs : List Action)
    → row m.event_id rows ≡ some e
    → e.payload ≡ m
    → IsKept m reaction e.processing_reaction_id cs
    → Answered m reaction (signal o rows cs)
signal-Answered o m reaction rows e cs h p kept = record {
  stored = e;
  found = h;
  same = p;
  signalled = exists-append is_signal cs _ ∙ ground arith;
  returned = refl;
  reaction_kept = IsKept-append m reaction e.processing_reaction_id cs _ (inl kept);
}

pub removed :
    (o : Outside) (m : NormalizedMessage) (r : Ident)
    → exists (is_removal m.message_id r) (remove o m r) ≡ true
removed o m r = ground arith

-- The row that takes a reaction: the active one of the event, if it has none yet.
abbrev pub takes_reaction : NormalizedMessage → EventRow → Bool
takes_reaction m e =
    e.event_id == m.event_id && (is_active e.status && is_none e.processing_reaction_id)

abbrev attached_if : Bool → Ident → Time → EventRow → EventRow
attached_if b r now e = if b then attached_row r now e else e

attached-payload :
    (b : Bool) (r : Ident) (now : Time) (e : EventRow) → (attached_if b r now e).payload ≡ e.payload
attached-payload true r now e = refl
attached-payload false r now e = refl

attached_row-found :
    (m : NormalizedMessage) (r : Ident) (now : Time) (rows : List EventRow) (e : EventRow)
    → row m.event_id rows ≡ some e
    → row m.event_id (update (takes_reaction m) (attached_row r now) rows)
      ≡ some (attached_if (takes_reaction m e) r now e)
attached_row-found m r now rows e h =
    row-update m.event_id (takes_reaction m) (attached_row r now) rows e (λ x. refl) h

taken :
    (m : NormalizedMessage) (r : Ident) (now : Time) (rows : List EventRow) (e : EventRow)
    → HasUniqueIds rows
    → row m.event_id rows ≡ some e
    → (count (takes_reaction m) rows == 1) ≡ true
    → (attached_if (takes_reaction m e) r now e).processing_reaction_id ≡ some r
taken m r now rows e u h one =
    let free =
      hit_of_count m.event_id (λ x. is_active x.status && is_none x.processing_reaction_id) rows e h
        (u m.event_id) ((==_iff _ 1).0 one) in
    ground (arith, row-id m.event_id rows e h)

-- The reaction was added, and the gateway's second transaction is next.
pub attach-Answered :
    (o : Outside) (m : NormalizedMessage) (r : Ident) (rows : List EventRow) (e : EventRow)
    (how : CallEnd)
    → HasUniqueIds rows
    → row m.event_id rows ≡ some e
    → e.payload ≡ m
    → Answered m (some (some r)) (attach o m r rows how)
unfolding attach attach_processing_reaction
attach-Answered o m r rows e answers u h p =
    let found = attached_row-found m r (o.clock 1) rows e h in
    let same = attached-payload (takes_reaction m e) r (o.clock 1) e ∙ p in
    elim (Bool-cases (count (takes_reaction m) rows == 1)) [
      | inl one ↦ rw one (
          signal-Answered o m (some (some r)) _ _ (adds_reaction m.message_id ∷ []) found same
            (inl (taken m r (o.clock 1) rows e u h one)))
      | inr other ↦ rw other (
          signal-Answered o m (some (some r)) _ _ (adds_reaction m.message_id ∷ remove o m r) found
            same (inr (removed o m r)))
    ]
attach-Answered o m r rows e loses_answer u h p =
    signal-Answered o m (some (some r)) _ _
      (adds_reaction m.message_id ∷ warns "reaction_state_attach_failed" ∷ remove o m r)
      (attached_row-found m r (o.clock 1) rows e h)
      (attached-payload (takes_reaction m e) r (o.clock 1) e ∙ p) (inr (removed o m r))
attach-Answered o m r rows e fails u h p =
    signal-Answered o m (some (some r)) rows e
      (adds_reaction m.message_id ∷ warns "reaction_state_attach_failed" ∷ remove o m r) h p
      (inr (removed o m r))
