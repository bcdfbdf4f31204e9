-- ===== src/Domain/Validate/Shape.antt =====
-- What an event that passes its checks looks like.
use recon_sync.Common.{
  ℕ, ◌≤◌, ◌<◌, true, ◌≡◌, refl, ◌≢◌, ◌↔◌, Option, none, some, [], ◌∷◌, Text, String, pos, ltℤ,
  length, arith, All,
}
use recon_sync.Domain.Errors.{Error}
use recon_sync.Domain.Transaction.{DebitEvent, CreditEvent, CreditStatus, other, credit_valid}
use recon_sync.Domain.Validate.{
  require_identifier, check_letters, validate_currency, validate_debit, validate_credit,
  field_count, then_check,
}

-- A reference: not empty, at most 255 bytes.
abbrev pub IsIdentifier : Text → Type 0
IsIdentifier v = (0 < length v) × (length v ≤ 255)

abbrev IsLetter : ℕ → Type 0
IsLetter c = (b'A' ≤ c) × (c ≤ b'Z')

abbrev pub IsCurrency : Text → Type 0
IsCurrency c = (length c ≡ 3) × All IsLetter c

pub record DebitShape (e : DebitEvent) : Type 0 where
  pub tenant : IsIdentifier e.tenant_id
  pub transaction : IsIdentifier e.transaction_id
  pub key : IsIdentifier e.idempotency_key
  pub kind : IsIdentifier e.transaction_type
  pub rail : length e.provider ≤ 255
  pub positive : ltℤ (pos 0) e.amount_minor ≡ true
  pub currency : IsCurrency e.currency
  pub dated : 0 < e.debit_at
  pub few_keys : field_count e.metadata ≤ 50

pub record CreditShape (e : CreditEvent) : Type 0 where
  pub tenant : IsIdentifier e.tenant_id
  pub transaction : IsIdentifier e.transaction_id
  pub key : IsIdentifier e.idempotency_key
  pub dated : 0 < e.credit_at
  pub verdict : (s : Text) → e.status ≢ other s
  pub reference : length e.provider_reference ≤ 255

IsIdentifier-iff : (f : String) (v : Text) → (require_identifier f v ≡ none) ↔ IsIdentifier v
unfolding require_identifier
IsIdentifier-iff f v = ground arith

letters_iff : (c : Text) → (check_letters c ≡ none) ↔ All IsLetter c
unfolding check_letters
letters_iff [] = ground arith
letters_iff (r ∷ c) = ground (arith, letters_iff c)

IsCurrency-iff : (c : Text) → (validate_currency c ≡ none) ↔ IsCurrency c
unfolding validate_currency
IsCurrency-iff c = ground (arith, letters_iff c)

verdict_iff : (s : CreditStatus) → (credit_valid s ≡ true) ↔ ((t : Text) → s ≢ other t)
unfolding credit_valid
verdict_iff (other s) = (λ e. absurd (cc), λ h. absurd (h s refl))
verdict_iff CreditStatus.success = (λ e t. cc, λ h. refl)
verdict_iff s = (λ e t. cc, λ h. refl)

then_iff : (a b : Option Error) → (then_check a b ≡ none) ↔ ((a ≡ none) × (b ≡ none))
then_iff none b = ground arith
then_iff (some e) b = ground arith

-- A debit passes its checks exactly if its four references hold 1 to 255 bytes, its provider at most
-- 255, its amount is positive, its currency is three letters A to Z, it is dated, and its metadata
-- has at most 50 keys.
pub validate_debit_iff : (e : DebitEvent) → (validate_debit e ≡ none) ↔ DebitShape e
unfolding validate_debit
validate_debit_iff e = ground (
  arith,
  IsIdentifier-iff "tenant_id" e.tenant_id,
  IsIdentifier-iff "transaction_id" e.transaction_id,
  IsIdentifier-iff "idempotency_key" e.idempotency_key,
  IsIdentifier-iff "transaction_type" e.transaction_type,
  IsCurrency-iff e.currency,
)

-- A credit passes its checks exactly if its three references hold 1 to 255 bytes, it is dated, its
-- status is one of the three verdicts, and its provider reference holds at most 255 bytes; its
-- amount and currency are not looked at.
pub validate_credit_iff : (e : CreditEvent) → (validate_credit e ≡ none) ↔ CreditShape e
unfolding validate_credit
validate_credit_iff e = ground (
  arith,
  IsIdentifier-iff "tenant_id" e.tenant_id,
  IsIdentifier-iff "transaction_id" e.transaction_id,
  IsIdentifier-iff "idempotency_key" e.idempotency_key,
  verdict_iff e.status,
)
