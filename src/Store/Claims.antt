-- ===== src/Store/Claims.antt =====
-- internal/store/memory_claims.go: the interlock that lets one worker reverse a transaction.
pub mod Once
use recon_sync.Common.{
  ℕ, Bool, true, false, Option, none, some, List, [], ◌∷◌, Text, lookup, insert, delete, text_eq,
  pair_eq,
}
use recon_sync.Domain.Errors.{Error, not_found, Result, ok, err}
use recon_sync.Store.State.{Key, Memory, ReversalClaim}

abbrev pub new_claim : Text → Text → Text → Text → ℕ → ReversalClaim
new_claim tenant id claimed_by token now = record {
  tenant_id = tenant;
  transaction_id = id;
  claim_token = token;
  claimed_by = claimed_by;
  claimed_at = now;
  confirmed_at = none;
}

-- The claim that stands, and whether this call was granted it.
unfoldable pub claim_reversal :
    Memory → Text → Text → Text → Text → ℕ → Memory × (ReversalClaim × Bool)
claim_reversal m tenant id claimed_by token now = elim (lookup (tenant, id) m.claims) [
  | some existing ↦ (m, (existing, false))
  | none ↦
      let claim = new_claim tenant id claimed_by token now in
      (record m { claims = insert (tenant, id) claim m.claims }, (claim, true))
]

unfoldable pub get_reversal_claim : Memory → Text → Text → Result ReversalClaim
get_reversal_claim m tenant id = elim (lookup (tenant, id) m.claims) [
  | none ↦ err not_found
  | some claim ↦ ok claim
]

unfoldable pub release_reversal_claim : Memory → Text → Text → Memory × Option Error
release_reversal_claim m tenant id = elim (lookup (tenant, id) m.claims) [
  | none ↦ (m, some not_found)
  | some claim ↦ elim claim.confirmed_at [
    | some at ↦ (m, some not_found)
    | none ↦ (record m { claims = delete (tenant, id) m.claims }, none)
  ]
]

-- The first confirmation stands.
abbrev pub confirm : ℕ → ReversalClaim → ReversalClaim
confirm at claim = elim claim.confirmed_at [
  | some before ↦ claim
  | none ↦ record claim { confirmed_at = some at }
]

unfoldable pub confirm_reversal_claim : Memory → Text → Text → ℕ → Memory × Option Error
confirm_reversal_claim m tenant id at = elim (lookup (tenant, id) m.claims) [
  | none ↦ (m, some not_found)
  | some claim ↦ (record m { claims = insert (tenant, id) (confirm at claim) m.claims }, none)
]
