-- ===== src/Service/Dispatcher.antt =====
-- internal/service/dispatcher.go, `attempt`: one delivery, from the claimed item to what is written
-- back. The secret resolver and the network are arguments.
pub mod Retries
pub mod Failure
use recon_sync.Common.{
  ℕ, Bool, true, false, ◌&&◌, Option, none, some, List, [], ◌∷◌, Text, ascii, lookup, ◌==◌,
  if◌then◌else◌, text_beq, nat_eq,
}
use recon_sync.Domain.Errors.{
  Error, validation, sensitive, unknown_credit_status, empty_event, not_found, tenant_mismatch,
  illegal, failure, Result, ok, err,
}
use recon_sync.Domain.Transaction.{Transaction}
use recon_sync.Webhook.Payload.{reversal_triggered}
use recon_sync.Store.State.{Memory}
use recon_sync.Store.Reversals.{mark_reversal_failed}
use recon_sync.Store.Webhooks.{DueDelivery, DeliveryOutcome, record_delivery_outcome, due_delivery}
use recon_sync.Webhook.Decide.{
  AttemptResult, AttemptOutcome, Answer, send_result, decide, pending, dead_letter,
}

-- What one attempt meets: the answer and how long it took, the clock, and the jitter drawn.
pub record Try : Type 0 where
  pub answer : Answer
  pub duration_ms : ℕ
  pub now : ℕ
  pub jitter : ℕ → ℕ

unfoldable pub outcome_of : Try → ℕ → AttemptOutcome
unfolding decide send_result
outcome_of a attempt = decide a.jitter attempt (send_result a.answer a.duration_ms) a.now

-- What is written back.
unfoldable pub written : Try → ℕ → DeliveryOutcome
unfolding outcome_of send_result
written a attempt =
    let result = send_result a.answer a.duration_ms in
    let outcome = outcome_of a attempt in
    record {
      status = outcome.status;
      response_code = if result.status_code == 0 then none else some result.status_code;
      response_body = result.response_body;
      duration_ms = result.duration_ms;
      next_retry_at = outcome.next_retry_at;
    }

-- `ErrNotFound` and an `InvalidTransitionError` are tolerated.
abbrev after_mark : Text → Memory × Result Transaction → Memory × Result Text
after_mark status (m, ok t) = (m, ok status)
after_mark status (m, err not_found) = (m, ok status)
after_mark status (m, err (illegal e)) = (m, ok status)
after_mark status (m, err e) = (m, err e)

abbrev after_record : Try → DueDelivery → Text → Memory × Option Error → Memory × Result Text
after_record a item status (m, some e) = (m, err e)
after_record a item status (m, none) =
    if text_beq status dead_letter && text_beq item.event_type reversal_triggered
    then after_mark status (mark_reversal_failed a.now m item.tenant_id item.transaction_id a.now)
    else (m, ok status)

unfoldable pub attempt : Memory → DueDelivery → Result (List Text) → Try → Memory × Result Text
unfolding written outcome_of record_delivery_outcome mark_reversal_failed
attempt m item (err e) a = (m, err e)
attempt m item (ok secrets) a =
    after_record a item (outcome_of a item.attempt).status
      (record_delivery_outcome m item.id (written a item.attempt))
