-- ===== src/Domain/Transaction.antt =====
-- internal/domain/transaction.go: transactions, the events that report their two legs, amounts.
-- A `time.Time` is the number of nanoseconds since Go's zero time, so `UTC` changes nothing.
use recon_sync.Common.{
  ℕ, Bool, true, false, ◌&&◌, Option, Text, ℤ, pos, ltℤ, sub64, sub_time, leb, if◌then◌else◌,
}
use recon_sync.Domain.Status.{Status, pending_unknown, completed, orphaned, is_open}
use recon_sync.Domain.Errors.{Error, unknown_credit_status}

-- The values of `map[string]any`. `scalar` is a number, a Boolean or nil, by its JSON text.
mutual
  pub data Value : Type 0 where
    object : Fields → Value
    array : Items → Value
    text : Text → Value
    scalar : Text → Value

  pub data Fields : Type 0 where
    end : Fields
    field : Text → Value → Fields → Fields

  pub data Items : Type 0 where
    nil : Items
    cons : Value → Items → Items

-- `CreditStatus`; `other` is a string that is none of the three constants.
pub data CreditStatus : Type 0 where
  success failed unknown : CreditStatus
  other : Text → CreditStatus

unfoldable pub credit_valid : CreditStatus → Bool
credit_valid success = true
credit_valid failed = true
credit_valid unknown = true
credit_valid (other s) = false

pub data TargetResult : Type 0 where
  target : Status → TargetResult
  no_target : Error → TargetResult

unfoldable pub target_status : CreditStatus → TargetResult
target_status success = target completed
target_status failed = target orphaned
target_status unknown = target pending_unknown
target_status (other s) = no_target (unknown_credit_status s)

pub record Transaction : Type 0 where
  pub id : ℕ
  pub tenant_id : Text
  pub transaction_id : Text
  pub idempotency_key : Text
  pub transaction_type : Text
  pub provider : Text
  pub amount_minor : ℤ
  pub currency : Text
  pub status : Status
  pub debit_at : ℕ
  pub credit_at : Option ℕ
  pub expected_completion_at : ℕ
  pub detected_at : Option ℕ
  pub reversal_triggered_at : Option ℕ
  pub reversal_completed_at : Option ℕ
  pub customer_ref_hash : Text
  pub expected_credit_minor : ℤ
  pub credited_minor : ℤ
  pub metadata : Fields
  pub is_backfill : Bool
  pub sla_warned_at : Option ℕ
  pub created_at : ℕ
  pub updated_at : ℕ

unfoldable pub window : Transaction → ℤ
window t = sub_time t.expected_completion_at t.debit_at

unfoldable pub is_expired_at : Transaction → ℕ → Bool
is_expired_at t now = is_open t.status && leb t.expected_completion_at now

pub record DebitEvent : Type 0 where
  pub tenant_id : Text
  pub transaction_id : Text
  pub idempotency_key : Text
  pub transaction_type : Text
  pub provider : Text
  pub amount_minor : ℤ
  pub currency : Text
  pub debit_at : ℕ
  pub customer_ref : Text
  pub metadata : Fields
  pub expected_credit_minor : ℤ
  pub is_backfill : Bool

pub record CreditEvent : Type 0 where
  pub tenant_id : Text
  pub transaction_id : Text
  pub idempotency_key : Text
  pub credit_at : ℕ
  pub provider_reference : Text
  pub status : CreditStatus
  pub amount_minor : ℤ
  pub currency : Text

pub record ReversalCompletedEvent : Type 0 where
  pub tenant_id : Text
  pub transaction_id : Text
  pub completed_at : ℕ

unfoldable pub expected_credit : Transaction → ℤ
expected_credit t =
    if ltℤ (pos 0) t.expected_credit_minor then t.expected_credit_minor else t.amount_minor

unfoldable pub shortfall_minor : Transaction → ℤ
unfolding expected_credit
shortfall_minor t =
    let short : ℤ = sub64 (expected_credit t) t.credited_minor in
    if ltℤ short (pos 0) then pos 0 else short
