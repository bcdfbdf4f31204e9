-- ===== src/Rules.antt =====
-- internal/rules/rules.go: which reconciliation rule applies to a transaction.
pub mod Order
pub mod Resolve
pub mod Provider
use recon_sync.Common.{
  ℕ, ◌+◌, Bool, true, false, not, ◌&&◌, Option, none, some, List, [], ◌∷◌, Text, ascii, ℤ, pos, ltℤ,
  eqℤ, ltb, ◌==◌, if◌then◌else◌, select, seconds64, length, text_beq,
}
use recon_sync.Domain.Transaction.{Transaction}

-- `Action`: a Go string, of which these are the constants.
abbrev pub auto_reverse : Text
auto_reverse = ascii "auto_reverse"

abbrev pub alert_only : Text
alert_only = ascii "alert_only"

abbrev pub investigate : Text
investigate = ascii "investigate"

-- `DefaultWindow`, 300 seconds in nanoseconds.
abbrev pub default_window : ℤ
default_window = pos 300_000_000_000

-- A rule matches on any combination of criteria; an empty or absent one matches anything.
pub record Rule : Type 0 where
  pub id : ℕ
  pub transaction_type : Text
  pub provider : Text
  pub currency : Text
  pub min_amount_minor : Option ℤ
  pub max_amount_minor : Option ℤ
  pub window_seconds : ℤ
  pub action : Text
  pub priority : ℤ
  pub enabled : Bool

abbrev pub is_empty : Text → Bool
is_empty [] = true
is_empty (c ∷ s) = false

-- One turn of the loop of `specificity`, and its two tests on pointers.
abbrev count_text : Text → ℕ
count_text [] = 0
count_text (c ∷ s) = 1

abbrev count_bound : Option ℤ → ℕ
count_bound none = 0
count_bound (some v) = 1

unfoldable pub specificity : Rule → ℕ
specificity r =
    count_text r.transaction_type
    + count_text r.provider
    + count_text r.currency
    + count_bound r.min_amount_minor
    + count_bound r.max_amount_minor

-- `criterion != "" && criterion != value`.
abbrev pub differs : Text → Text → Bool
differs criterion value = not (is_empty criterion) && not (text_beq criterion value)

-- `bound != nil && amount < *bound` and `bound != nil && amount > *bound`.
abbrev pub below_bound : Option ℤ → ℤ → Bool
below_bound none amount = false
below_bound (some b) amount = ltℤ amount b

abbrev pub above_bound : Option ℤ → ℤ → Bool
above_bound none amount = false
above_bound (some b) amount = ltℤ b amount

unfoldable pub matches : Rule → Transaction → Bool
matches r t =
    if not r.enabled
    then false
    else if differs r.transaction_type t.transaction_type
    then false
    else if differs r.provider t.provider
    then false
    else if differs r.currency t.currency
    then false
    else if below_bound r.min_amount_minor t.amount_minor
    then false
    else if above_bound r.max_amount_minor t.amount_minor
    then false
    else true

pub record Resolution : Type 0 where
  pub window : ℤ
  pub action : Text
  pub rule_id : ℕ

-- `NewSet`: disabled rules are dropped.
unfoldable pub new_set : List Rule → List Rule
new_set rules = select (λ r. r.enabled) rules

unfoldable pub better : Rule → Rule → Bool
better candidate current =
    if not (eqℤ candidate.priority current.priority)
    then ltℤ current.priority candidate.priority
    else if not (specificity candidate == specificity current)
    then ltb (specificity current) (specificity candidate)
    else ltb candidate.id current.id

-- `best == nil || better(r, best)`.
abbrev pub wins : Rule → Option Rule → Bool
wins r none = true
wins r (some b) = better r b

-- The loop of `Resolve`.
unfoldable pub find_best : Transaction → Option Rule → List Rule → Option Rule
find_best t best [] = best
find_best t best (r ∷ rules) =
    find_best t (if matches r t then (if wins r best then some r else best) else best) rules

unfoldable pub resolve : List Rule → Transaction → Resolution
unfolding find_best
resolve rules t = elim (find_best t none rules) [
  | none ↦ record { window = default_window; action = auto_reverse; rule_id = 0 }
  | some best ↦ record {
    window = seconds64 best.window_seconds;
    action = best.action;
    rule_id = best.id;
  }
]
