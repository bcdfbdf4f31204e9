-- ===== src/Domain/Status.antt =====
-- internal/domain/status.go: the lifecycle of a transaction, as a table of edges.
pub mod Machine
pub mod Sources
use recon_sync.Common.{
  ℕ, Bool, true, false, ◌&&◌, ◌||◌, not, ◌≡◌, refl, ◌↔◌, Option, none, some, List, [], ◌∷◌, Text,
  ascii, Eq, text_beq, text_beq_iff, arith, contains, Dict, lookup, sort_slice, if◌then◌else◌, ltb,
  ◌==◌,
}

-- `Status` is a Go string. `unrecognised` holds a string that is none of the eight constants,
-- such as one that a newer binary wrote.
pub data Status : Type 0 where
  pending_debit pending_unknown completed suspect orphaned : Status
  reversal_pending reversal_completed reversal_failed : Status
  unrecognised : Text → Status

abbrev pub status_beq : Status → Status → Bool
status_beq pending_debit pending_debit = true
status_beq pending_unknown pending_unknown = true
status_beq completed completed = true
status_beq suspect suspect = true
status_beq orphaned orphaned = true
status_beq reversal_pending reversal_pending = true
status_beq reversal_completed reversal_completed = true
status_beq reversal_failed reversal_failed = true
status_beq (unrecognised s) (unrecognised t) = text_beq s t
status_beq _ _ = false

pub status_beq_iff : (s t : Status) → (status_beq s t ≡ true) ↔ (s ≡ t)
status_beq_iff (unrecognised s) (unrecognised t) = ground (arith, text_beq_iff s t)
status_beq_iff pending_debit t = ground arith
status_beq_iff s t = ground arith

instance abbrev pub status_eq : Eq Status
status_eq = record { beq = status_beq; beq_iff = status_beq_iff }

-- The string of a status.
unfoldable pub string : Status → Text
string pending_debit = ascii "pending_debit"
string pending_unknown = ascii "pending_unknown"
string completed = ascii "completed"
string suspect = ascii "suspect"
string orphaned = ascii "orphaned"
string reversal_pending = ascii "reversal_pending"
string reversal_completed = ascii "reversal_completed"
string reversal_failed = ascii "reversal_failed"
string (unrecognised s) = s

-- `allowedTransitions`.
unfoldable pub allowed_transitions : Dict Status (List Status)
allowed_transitions =
    (pending_debit, completed ∷ pending_unknown ∷ orphaned ∷ suspect ∷ [])
    ∷ (pending_unknown, completed ∷ suspect ∷ [])
    ∷ (suspect, orphaned ∷ completed ∷ [])
    ∷ (orphaned, reversal_pending ∷ completed ∷ suspect ∷ [])
    ∷ (reversal_pending, reversal_completed ∷ reversal_failed ∷ [])
    ∷ (reversal_failed, reversal_pending ∷ [])
    ∷ (completed, [])
    ∷ (reversal_completed, [])
    ∷ []

unfoldable pub valid : Status → Bool
unfolding allowed_transitions lookup
valid s = elim (lookup s allowed_transitions) [ none ↦ false | some dests ↦ true ]

-- A key that is missing has no destinations, so `len` is 0 there too.
unfoldable pub is_terminal : Status → Bool
unfolding allowed_transitions lookup
is_terminal s = elim (lookup s allowed_transitions) [
  | none ↦ true
  | some [] ↦ true
  | some (d ∷ ds) ↦ false
]

unfoldable pub is_open : Status → Bool
is_open s = status_beq s pending_debit || status_beq s pending_unknown

unfoldable pub needs_reversal : Status → Bool
needs_reversal s =
    status_beq s orphaned || (status_beq s reversal_pending || status_beq s reversal_failed)

pub data InvalidTransitionError : Type 0 where
  invalid_transition : Status → Status → InvalidTransitionError

unfoldable pub can_transition : Status → Status → Bool
unfolding allowed_transitions lookup contains
can_transition from to = elim (lookup from allowed_transitions) [
  | none ↦ false
  | some dests ↦ contains dests to
]

unfoldable pub transition : Status → Status → Option InvalidTransitionError
transition from to = if can_transition from to then none else some (invalid_transition from to)

-- `a < b` on Go strings: by bytes.
unfoldable pub text_less : Text → Text → Bool
text_less [] [] = false
text_less [] (d ∷ t) = true
text_less (c ∷ s) [] = false
text_less (c ∷ s) (d ∷ t) = ltb c d || (c == d && text_less s t)

-- The loop of `SourcesFor` over the entries of the table.
unfoldable pub collect_sources : Status → Dict Status (List Status) → List Status
collect_sources target [] = []
collect_sources target ((from, dests) ∷ table) =
    let rest = collect_sources target table in if contains dests target then from ∷ rest else rest

unfoldable pub sources_for : Status → List Status
unfolding collect_sources text_less string sort_slice allowed_transitions
sources_for target =
    sort_slice (λ a b. text_less (string a) (string b)) (collect_sources target allowed_transitions)
