-- ===== src/Runs/Deliver.antt =====
-- The delivery marks of a run: `prepareDelivery`, `markDelivered`, `beginFallback` and
-- `finishFallback`. The methods read and write `scheduled_runs` alone.
use minori.Common.{
  ℕ, String, List, Option, none, some, Bool, ◌&&◌, ◌==◌, if◌then◌else◌, is_some, is_none,
}
use minori.Common.Table.{count, find, update}
use minori.Domain.{Ident, Time}
use minori.Database.{RunRow, DeliveryKey, fallback_key}
use minori.Runs.Claim.{run_held}

-- A method returns, or throws the error of its name.
pub data Outcome {ℓ} (A : Type ℓ) : Type ℓ where
  ok : A → Outcome A
  delivery_already_attempted delivery_state_stale fallback_already_attempted : Outcome A

abbrev pub may_prepare : Ident → ℕ → RunRow → Bool
may_prepare id claim_attempt r = run_held id claim_attempt r && is_none r.delivery_attempted_at

abbrev pub prepared_run : String → Time → RunRow → RunRow
prepared_run text now r = record r {
  prepared_result_text = some text;
  delivery_attempted_at = some now;
  updated_at = now;
}

abbrev pub key_or_throw : Option DeliveryKey → Outcome DeliveryKey
key_or_throw none = delivery_already_attempted
key_or_throw (some k) = ok k

abbrev pub returned_key : Option RunRow → Option DeliveryKey
returned_key none = none
returned_key (some r) = r.delivery_idempotency_key

unfoldable pub prepare_delivery :
    Ident → ℕ → String → Time → List RunRow → List RunRow × Outcome DeliveryKey
prepare_delivery id claim_attempt text now rs =
    let hit = may_prepare id claim_attempt in
    (update hit (prepared_run text now) rs, key_or_throw (returned_key (find hit rs)))

abbrev pub may_mark_delivered : Ident → ℕ → RunRow → Bool
may_mark_delivered id claim_attempt r =
    run_held id claim_attempt r
    && (is_some r.delivery_attempted_at && is_none r.delivery_message_id)

abbrev pub delivered_run : Ident → Time → RunRow → RunRow
delivered_run message_id now r = record r {
  delivery_message_id = some message_id;
  updated_at = now;
}

unfoldable pub mark_delivered :
    Ident → ℕ → Ident → Time → List RunRow → List RunRow × Outcome (Unit {0})
mark_delivered id claim_attempt message_id now rs =
    let hit = may_mark_delivered id claim_attempt in
    (
      update hit (delivered_run message_id now) rs,
      if count hit rs == 1 then ok tt else delivery_state_stale,
    )

abbrev pub may_fall_back : Ident → ℕ → RunRow → Bool
may_fall_back id claim_attempt r = run_held id claim_attempt r && is_none r.fallback_attempted_at

abbrev pub fallback_run : Time → RunRow → RunRow
fallback_run now r = record r { fallback_attempted_at = some now; updated_at = now }

unfoldable pub begin_fallback : Ident → ℕ → Time → List RunRow → List RunRow × Outcome DeliveryKey
begin_fallback id claim_attempt now rs =
    let hit = may_fall_back id claim_attempt in
    (
      update hit (fallback_run now) rs,
      if count hit rs == 1 then ok (fallback_key id) else fallback_already_attempted,
    )

abbrev pub fallback_ended : Option Ident → Option String → Time → RunRow → RunRow
fallback_ended message_id category now r = record r {
  fallback_message_id = message_id;
  fallback_outcome_category = category;
  updated_at = now;
}

unfoldable pub finish_fallback :
    Ident → Option Ident → Option String → Time → List RunRow → List RunRow
finish_fallback id message_id category now rs =
    update (λ r. r.id == id && is_some r.fallback_attempted_at)
      (fallback_ended message_id category now) rs
