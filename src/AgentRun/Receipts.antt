-- ===== src/AgentRun/Receipts.antt =====
-- What the receipts of a run's writes say of them.
use minori.Common.{
  ◌≡◌, ◌≢◌, refl, sym, subst, ◌⊎◌, inl, inr, String, List, [], ◌∷◌, Option, none, some, Bool, true,
  false, arith, Bool-cases,
}
use minori.Domain.{Ident}
use minori.Audit.{WriteOutcome, succeeded, failed, unknown, Identifiers}
use minori.Audit.Receipts.{WriteAttemptReceipt}
use minori.AgentRun.{
  Written, BeginAnswer, begun, late, begin_failed, Operation, performed, refused, WriteError,
  other_error, Abort, before_operation, in_operation, in_finish, never, WriteOutside, WriteEnd,
  Action, finishes_write, success_result, is_before, succeed, fail, operate, write_audit_run,
  add_receipt, write_attempts,
}

-- What a receipt says of its write, of which the store was told `cs`: that it succeeded, only if the
-- operation returned and the store has acknowledged the success with its identifiers; that it failed,
-- only if the operation failed, the run was not aborted and the store has acknowledged the failure; that
-- this is unknown, only if the store has not acknowledged or the run was aborted.
abbrev pub Says : Ident → WriteOutside → List Action → WriteAttemptReceipt → WriteOutcome → Type 0
Says id w cs r succeeded =
    (w.operation ≡ performed r.result_identifiers)
    × (w.finish_acknowledged ≡ true)
    × (cs ≡ finishes_write id (success_result r.result_identifiers) ∷ [])
Says id w cs r failed =
    (e : WriteError) × (w.operation ≡ refused e)
    × (w.abort ≡ never)
    × (w.finish_acknowledged ≡ true)
    × (cs
        ≡ finishes_write id (record {
          outcome = failed;
          error_category = r.error_category;
          result_identifiers = none;
        })
          ∷ [])
Says id w cs r unknown = (w.finish_acknowledged ≡ false) ⊎ (¬ (w.abort ≡ never))

abbrev pub IsTrueOf : Ident → WriteOutside → Written → WriteAttemptReceipt → Type 0
IsTrueOf id w done_ r = (r.tool_name ≡ w.input.tool_name) × Says id w done_.actions r r.outcome

same_receipt :
    (P : WriteAttemptReceipt → Type 0) (q r : WriteAttemptReceipt)
    → ◌≡◌ {A = Option WriteAttemptReceipt} (some q) (some r)
    → P q
    → P r
same_receipt P q r h p = let same : q ≡ r = ground arith in subst P same p

succeed-IsTrueOf :
    (id : Ident) (w : WriteOutside) (ids : Option Identifiers) (ack : Bool)
    (r : WriteAttemptReceipt)
    → w.operation ≡ performed ids
    → w.finish_acknowledged ≡ ack
    → (succeed id w.input ids ack).receipt ≡ some r
    → IsTrueOf id w (succeed id w.input ids ack) r
unfolding succeed
succeed-IsTrueOf id w ids true r p a h =
    same_receipt (IsTrueOf id w (succeed id w.input ids true)) _ r h (refl, (p, a, refl))
succeed-IsTrueOf id w ids false r p a h =
    same_receipt (IsTrueOf id w (succeed id w.input ids false)) _ r h (refl, inl a)

fail-IsTrueOf :
    (id : Ident) (w : WriteOutside) (abort : Abort) (e : WriteError) (category : String)
    (ended : WriteEnd) (ack : Bool) (r : WriteAttemptReceipt)
    → w.abort ≡ abort
    → w.operation ≡ refused e ⊎ (is_before abort ≡ true)
    → w.finish_acknowledged ≡ ack
    → (fail id w.input abort category ended ack).receipt ≡ some r
    → IsTrueOf id w (fail id w.input abort category ended ack) r
unfolding fail
fail-IsTrueOf id w abort e category ended false r q p a h =
    same_receipt (IsTrueOf id w (fail id w.input abort category ended false)) _ r h (refl, inl a)
fail-IsTrueOf id w never e category ended true r q (inl p) a h =
    same_receipt (IsTrueOf id w (fail id w.input never category ended true)) _ r h
      (refl, (e, p, q, a, refl))
fail-IsTrueOf id w never e category ended true r q (inr p) a h = absurd (cc)
fail-IsTrueOf id w before_operation e category ended true r q p a h =
    same_receipt (IsTrueOf id w (fail id w.input before_operation category ended true)) _ r h
      (refl, inr (λ e. absurd (cc)))
fail-IsTrueOf id w in_operation e category ended true r q p a h =
    same_receipt (IsTrueOf id w (fail id w.input in_operation category ended true)) _ r h
      (refl, inr (λ e. absurd (cc)))
fail-IsTrueOf id w in_finish e category ended true r q p a h =
    same_receipt (IsTrueOf id w (fail id w.input in_finish category ended true)) _ r h
      (refl, inr (λ e. absurd (cc)))

operate-IsTrueOf :
    (id : Ident) (w : WriteOutside) (op : Operation) (r : WriteAttemptReceipt)
    → w.operation ≡ op
    → (operate id w op).receipt ≡ some r
    → IsTrueOf id w (operate id w op) r
unfolding operate
operate-IsTrueOf id w (performed ids) r p h =
    succeed-IsTrueOf id w ids w.finish_acknowledged r p refl h
operate-IsTrueOf id w (refused e) r p h =
    fail-IsTrueOf id w w.abort e _ _ w.finish_acknowledged r refl (inl p) refl h

-- The receipts are those of the writes that were begun, one for each and in their order, each true of
-- its own write. A write whose beginning failed or came too late has none.
abbrev pub IsReceiptOf : WriteOutside → BeginAnswer → Option WriteAttemptReceipt → Type 0
IsReceiptOf w (begun id) (some r) = IsTrueOf id w (write_audit_run w (begun id)) r
IsReceiptOf w (begun id) none = ⊥
IsReceiptOf w (late id) o = o ≡ none
IsReceiptOf w begin_failed o = o ≡ none

abbrev pub and_later :
    Option WriteAttemptReceipt → List WriteAttemptReceipt → List WriteAttemptReceipt
and_later none rs = rs
and_later (some r) rs = r ∷ rs

abbrev pub AreReceiptsOf : List WriteOutside → List WriteAttemptReceipt → Type 0
AreReceiptsOf [] rs = rs ≡ []
AreReceiptsOf (w ∷ ws) rs =
    (o : Option WriteAttemptReceipt) × (later : List WriteAttemptReceipt) × IsReceiptOf w
      w.begin_answer o
    × (rs ≡ and_later o later)
    × AreReceiptsOf ws later

run-IsTrueOf :
    (id : Ident) (w : WriteOutside) (r : WriteAttemptReceipt)
    → (write_audit_run w (begun id)).receipt ≡ some r
    → IsTrueOf id w (write_audit_run w (begun id)) r
unfolding write_audit_run
run-IsTrueOf id w r h = elim (Bool-cases (is_before w.abort)) [
  | inl b ↦ rw b (
      fail-IsTrueOf id w w.abort other_error _ _ w.finish_acknowledged r refl (inr b) refl
        (rw b at h))
  | inr b ↦ rw b (operate-IsTrueOf id w w.operation r refl (rw b at h))
]

succeed-receipt :
    (id : Ident) (w : WriteOutside) (ids : Option Identifiers) (ack : Bool)
    → (succeed id w.input ids ack).receipt ≢ none
unfolding succeed
succeed-receipt id w ids true h = cc
succeed-receipt id w ids false h = cc

fail-receipt :
    (id : Ident) (w : WriteOutside) (abort : Abort) (category : String) (ended : WriteEnd)
    (ack : Bool)
    → (fail id w.input abort category ended ack).receipt ≢ none
unfolding fail
fail-receipt id w abort category ended true h = cc
fail-receipt id w abort category ended false h = cc

operate-receipt :
    (id : Ident) (w : WriteOutside) (op : Operation) → (operate id w op).receipt ≢ none
unfolding operate
operate-receipt id w (performed ids) h = succeed-receipt id w ids w.finish_acknowledged h
operate-receipt id w (refused e) h = fail-receipt id w w.abort _ _ w.finish_acknowledged h

-- A write that was begun has a receipt.
run-receipt : (id : Ident) (w : WriteOutside) → (write_audit_run w (begun id)).receipt ≢ none
unfolding write_audit_run
run-receipt id w h = elim (Bool-cases (is_before w.abort)) [
  | inl b ↦ fail-receipt id w w.abort _ _ w.finish_acknowledged (rw b at h)
  | inr b ↦ operate-receipt id w w.operation (rw b at h)
]

receipt-IsReceiptOf :
    (w : WriteOutside) (b : BeginAnswer) (o : Option WriteAttemptReceipt)
    → (write_audit_run w b).receipt ≡ o
    → IsReceiptOf w b o
unfolding write_audit_run
receipt-IsReceiptOf w (begun id) (some r) h = run-IsTrueOf id w r h
receipt-IsReceiptOf w (begun id) none h = run-receipt id w h
receipt-IsReceiptOf w (late id) o h = sym h
receipt-IsReceiptOf w begin_failed o h = sym h

pub attempts-AreReceiptsOf : (ws : List WriteOutside) → AreReceiptsOf ws (write_attempts ws)
unfolding write_attempts
attempts-AreReceiptsOf [] = refl
attempts-AreReceiptsOf (w ∷ ws) =
    let o = (write_audit_run w w.begin_answer).receipt in
    (
      o,
      write_attempts ws,
      receipt-IsReceiptOf w w.begin_answer o refl,
      added o (write_attempts ws),
      attempts-AreReceiptsOf ws,
    )
  where
    added :
        (o : Option WriteAttemptReceipt) (rs : List WriteAttemptReceipt)
        → add_receipt o rs ≡ and_later o rs
    added none rs = refl
    added (some r) rs = refl
