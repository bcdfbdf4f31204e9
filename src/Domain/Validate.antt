-- ===== src/Domain/Validate.antt =====
-- internal/domain/transaction.go: the checks of shape, `Validate` of the three events. A check
-- returns `none` or its error; `then_check` is `if err != nil { return err }`.
pub mod Shape
use recon_sync.Common.{
  ℕ, Bool, true, false, ◌||◌, not, Option, none, some, List, [], ◌∷◌, Text, String, pos, ltℤ, ltb,
  ◌==◌, length, suc, zero, if◌then◌else◌,
}
use recon_sync.Domain.Errors.{Error, validation}
use recon_sync.Domain.Transaction.{
  DebitEvent, CreditEvent, ReversalCompletedEvent, Fields, end, field, credit_valid,
}

abbrev pub max_identifier_len : ℕ
max_identifier_len = 255

abbrev pub max_metadata_keys : ℕ
max_metadata_keys = 50

abbrev pub then_check : Option Error → Option Error → Option Error
then_check none rest = rest
then_check (some e) rest = some e

abbrev pub reject : String → String → Option Error
reject f r = some (validation (record { field = f; reason = r }))

-- `len(e.Metadata)`.
abbrev pub field_count : Fields → ℕ
field_count end = 0
field_count (field k v fs) = suc (field_count fs)

unfoldable pub require_identifier : String → Text → Option Error
require_identifier f v =
    if length v == 0
    then reject f "is required"
    else if ltb max_identifier_len (length v)
    then reject f "exceeds 255 characters"
    else none

-- The loop over the runes of the currency. A byte outside ASCII starts no rune below 'A'..'Z',
-- so testing bytes rejects the same strings.
unfoldable pub check_letters : Text → Option Error
check_letters [] = none
check_letters (r ∷ c) =
    let rest = check_letters c in
    if ltb r b'A' || ltb b'Z' r then reject "currency" "must be uppercase A-Z" else rest

unfoldable pub validate_currency : Text → Option Error
validate_currency c =
    if not (length c == 3)
    then reject "currency" "must be a 3-letter ISO 4217 code"
    else check_letters c

unfoldable pub validate_debit : DebitEvent → Option Error
validate_debit e = then_check (require_identifier "tenant_id" e.tenant_id) (
    then_check (require_identifier "transaction_id" e.transaction_id) (
      then_check (require_identifier "idempotency_key" e.idempotency_key) (
        then_check (require_identifier "transaction_type" e.transaction_type) (
          if ltb max_identifier_len (length e.provider)
          then reject "provider" "exceeds 255 characters"
          else if not (ltℤ (pos 0) e.amount_minor)
          then reject "amount_minor" "must be greater than zero"
          else then_check (validate_currency e.currency) (
              if e.debit_at == 0
              then reject "debit_at" "is required"
              else if ltb max_metadata_keys (field_count e.metadata)
              then reject "metadata" "exceeds 50 keys"
              else none)))))

unfoldable pub validate_credit : CreditEvent → Option Error
validate_credit e = then_check (require_identifier "tenant_id" e.tenant_id) (
    then_check (require_identifier "transaction_id" e.transaction_id) (
      then_check (require_identifier "idempotency_key" e.idempotency_key) (
        if e.credit_at == 0
        then reject "credit_at" "is required"
        else if not (credit_valid e.status)
        then reject "status" "must be one of success, failed, unknown"
        else if ltb max_identifier_len (length e.provider_reference)
        then reject "provider_reference" "exceeds 255 characters"
        else none)))

unfoldable pub validate_reversal : ReversalCompletedEvent → Option Error
validate_reversal e = then_check (require_identifier "tenant_id" e.tenant_id) (
    then_check (require_identifier "transaction_id" e.transaction_id)
      (if e.completed_at == 0 then reject "completed_at" "is required" else none))
