-- ===== src/Provider.antt =====
-- internal/provider/provider.go: what the rail says of a transaction, and the registry of adapters.
-- An adapter is a parameter: what it answers, for a reference.
pub mod Answers
pub mod Settlement
use recon_sync.Common.{
  ℕ, Bool, true, false, Option, none, some, List, [], ◌∷◌, ◌++◌, Text, ascii, Dict, lookup, insert,
  length, ◌==◌, if◌then◌else◌, map, sort_slice, text_eq, ℤ,
}
use recon_sync.Domain.Status.{text_less}

pub data Outcome : Type 0 where
  settled failed not_found unknown : Outcome
  unrecognised : Text → Outcome

abbrev pub conclusive : Outcome → Bool
conclusive settled = true
conclusive failed = true
conclusive not_found = true
conclusive unknown = false
conclusive (unrecognised t) = false

pub record Ref : Type 0 where
  pub tenant_id : Text
  pub transaction_id : Text
  pub provider : Text
  pub provider_ref : Text
  pub amount_minor : ℤ
  pub currency : Text

-- `Status`; a zero `ObservedAt` is 0.
pub record RailStatus : Type 0 where
  pub outcome : Outcome
  pub provider : Text
  pub reference : Text
  pub observed_at : ℕ
  pub detail : Text

-- What an adapter returns: a status, or the text of an error.
pub data Answer : Type 0 where
  answered : RailStatus → Answer
  failure : Text → Answer

-- `StatusProvider`.
pub record Adapter : Type 0 where
  pub name : Text
  pub ask : Ref → Answer

abbrev pub Registry : Type 0
Registry = Dict Text Adapter

-- `Register`, for an adapter or nil; the error is its text.
unfoldable pub register : Registry → Option Adapter → Registry × Option Text
register r none = (r, some (ascii "provider: cannot register nil"))
register r (some p) =
    if length p.name == 0
    then (r, some (ascii "provider: adapter has no name"))
    else (insert p.name p r, none)

abbrev name_of : Text × Adapter → Text
name_of e = e.0

unfoldable pub registry_names : Registry → List Text
registry_names r = sort_slice text_less (map name_of r)

abbrev pub no_answer : ℕ → Ref → Text → RailStatus
no_answer clock ref detail = record {
  outcome = Outcome.unknown;
  provider = ref.provider;
  reference = [];
  observed_at = clock;
  detail = detail;
}

abbrev pub completed : ℕ → Ref → RailStatus → RailStatus
completed clock ref s = record s {
  provider = if length s.provider == 0 then ref.provider else s.provider;
  observed_at = if s.observed_at == 0 then clock else s.observed_at;
}

-- The `switch` on the outcome of an answer.
abbrev pub recognised : ℕ → Ref → RailStatus → Outcome → RailStatus
recognised clock ref s settled = completed clock ref s
recognised clock ref s failed = completed clock ref s
recognised clock ref s not_found = completed clock ref s
recognised clock ref s unknown = completed clock ref s
recognised clock ref s (unrecognised t) =
    no_answer clock ref (ascii "adapter returned an unrecognised outcome")

abbrev pub read_answer : ℕ → Ref → Answer → RailStatus
read_answer clock ref (answered s) = recognised clock ref s s.outcome
read_answer clock ref (failure e) = no_answer clock ref (ascii "provider query failed: " ++ e)

unfoldable pub query : ℕ → Registry → Ref → RailStatus
query clock r ref = elim (lookup ref.provider r) [
  | none ↦ no_answer clock ref (ascii "no status provider registered for this rail")
  | some p ↦ read_answer clock ref (p.ask ref)
]
