-- ===== src/Tests/Events.antt =====
-- The properties of the events: their validation and the screen for card numbers.
use recon_sync.Common.{ℕ, ◌≡◌, ◌↔◌, ◌≤◌, refl, true, false, none, List, ascii, every, arith, All}
use recon_sync.Domain.Transaction.{Fields, end, field, text, object}
use recon_sync.Domain.Validate.{validate_debit}
use recon_sync.Domain.Validate.Shape.{DebitShape, validate_debit_iff}
use recon_sync.Domain.Sensitive.Scan.{
  run_is_pan, luhn_valid, luhn_loop, luhn_value, backwards, contains_card_number, screen_metadata,
}
use recon_sync.Domain.Sensitive.Cards.{Spaced, last, next, gap, contains_card_number-Spaced}
use recon_sync.Domain.Sensitive.Luhn.{IsDigit, luhn_valid-substitution}
use recon_sync.Domain.Sensitive.Metadata.{
  height_fields, keys_fields, texts_fields, is_clean_key, is_clean_text, screen_metadata_iff,
}
use recon_sync.Tests.Data.{debit}

validate_debit_iff_example : (validate_debit debit ≡ none) ↔ DebitShape debit
validate_debit_iff_example = validate_debit_iff debit

abbrev nested : Fields
nested = field (ascii "note") (object (field (ascii "memo") (text (ascii "rent")) end)) end

screen_metadata_iff_example : (screen_metadata nested ≡ none) ↔ (
    (height_fields nested ≤ 8)
    × (every is_clean_key (keys_fields nested) ≡ true)
    × (every is_clean_text (texts_fields nested) ≡ true))
screen_metadata_iff_example = screen_metadata_iff nested

before_digits : All IsDigit (ascii "79927")
before_digits = ground arith

after_digits : All IsDigit (ascii "98713")
after_digits = ground arith

luhn_valid-substitution_example : luhn_valid (ascii "79927498713") ≡ false
unfolding luhn_valid luhn_loop luhn_value backwards
luhn_valid-substitution_example =
    luhn_valid-substitution (ascii "79927") (ascii "98713") before_digits after_digits b'3' b'4'
      (omega arith) (omega arith) (λ h. absurd (omega arith)) refl

-- A card number, and how it is written.
abbrev card : List ℕ
card = ascii "4111111111111111"

card-Spaced : Spaced card (ascii "4111 1111-1111 1111")
card-Spaced = next refl (
    next refl (
      next refl (
        gap refl refl (
          next refl (
            next refl (
              next refl (
                gap refl refl (
                  next refl (
                    next refl (
                      next refl
                        (gap refl refl (next refl (next refl (next refl (last refl)))))))))))))))

contains_card_number-Spaced_example :
    (contains_card_number (ascii "pay 4:4111 1111-1111 1111.") ≡ true)
    × (contains_card_number (ascii "4111 1111-1111 1111.") ≡ true)
unfolding run_is_pan luhn_valid luhn_loop luhn_value backwards
contains_card_number-Spaced_example =
    contains_card_number-Spaced (ascii "pay 4") b':' (ascii ".") card-Spaced refl (refl, refl)
      (refl, refl) (omega arith)
