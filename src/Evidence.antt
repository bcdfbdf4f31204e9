-- ===== src/Evidence.antt =====
-- internal/evidence/evidence.go: why a verdict was reached. Weights and confidence are hundredths,
-- exact where the source rounds a sum of floats to two decimals.
pub mod Confidence
use recon_sync.Common.{
  ℕ, Bool, false, ◌||◌, Option, none, some, List, [], ◌∷◌, ◌++◌, Text, ascii, ltb, if◌then◌else◌,
  text_beq, sort_slice, ℤ, pos, negsuc, ltℤ, ◌+ℤ◌,
}

pub record Signal : Type 0 where
  pub name : Text
  pub value : Text
  pub weight : ℤ

abbrev pub window_expired : Text
window_expired = ascii "window_expired"

abbrev pub ingest_intact : Text
ingest_intact = ascii "ingest_intact"

abbrev pub provider_failed : Text
provider_failed = ascii "provider_failed"

abbrev pub provider_not_found : Text
provider_not_found = ascii "provider_not_found"

abbrev pub provider_unreachable : Text
provider_unreachable = ascii "provider_unreachable"

abbrev pub ingest_gap : Text
ingest_gap = ascii "ingest_gap"

abbrev pub weight_window_expired : ℤ
weight_window_expired = pos 55

abbrev pub weight_ingest_intact : ℤ
weight_ingest_intact = pos 15

abbrev pub weight_provider_failed : ℤ
weight_provider_failed = pos 30

abbrev pub weight_provider_not_found : ℤ
weight_provider_not_found = pos 25

abbrev pub weight_provider_unreached : ℤ
weight_provider_unreached = pos 0

abbrev pub weight_ingest_gap : ℤ
weight_ingest_gap = pos 0

-- `*Set`: `none` is a nil pointer.
abbrev pub Evidence : Type 0
Evidence = Option (List Signal)

abbrev pub new_evidence : Evidence
new_evidence = some []

abbrev pub add_signal : Evidence → Text → Text → ℤ → Evidence
add_signal none name value weight = none
add_signal (some signals) name value weight =
    some (signals ++ record { name = name; value = value; weight = weight } ∷ [])

abbrev heavier : Signal → Signal → Bool
heavier a b = ltℤ b.weight a.weight

unfoldable pub signals_of : Evidence → List Signal
signals_of none = []
signals_of (some signals) = sort_slice heavier signals

abbrev pub has_name : Text → List Signal → Bool
has_name name [] = false
has_name name (s ∷ signals) = text_beq s.name name || has_name name signals

unfoldable pub has_signal : Evidence → Text → Bool
has_signal none name = false
has_signal (some signals) name = has_name name signals

abbrev pub total_weight : ℤ → List Signal → ℤ
total_weight total [] = total
total_weight total (s ∷ signals) = total_weight (total +ℤ s.weight) signals

abbrev pub clamped : ℤ → ℕ
clamped (negsuc n) = 0
clamped (pos n) = if ltb 100 n then 100 else n

unfoldable pub confidence : Evidence → ℕ
confidence none = 0
confidence (some signals) = clamped (total_weight (pos 0) signals)
