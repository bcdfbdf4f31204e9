-- ===== src/Store/Credits.antt =====
-- internal/store/memory.go: `ApplyCredit` and `ApplyPartialCredit`.
pub mod Totals
use recon_sync.Common.{
  ℕ, Bool, true, false, ◌||◌, not, ◌&&◌, Option, none, some, List, [], ◌∷◌, Text, Dict, lookup,
  insert, contains, ℤ, ltℤ, eqℤ, add64, if◌then◌else◌, text_eq, pair_eq, text_beq,
}
use recon_sync.Domain.Status.{
  Status, completed, suspect, orphaned, invalid_transition, is_open, transition, status_beq,
}
use recon_sync.Domain.Errors.{Error, not_found, illegal, Result, ok, err}
use recon_sync.Domain.Transaction.{Transaction, CreditEvent, expected_credit}
use recon_sync.Rules.{differs}
use recon_sync.Store.State.{Key, Memory}

-- The write of `ApplyCredit`.
abbrev pub with_credit : Status → ℕ → ℕ → Transaction → Transaction
with_credit target credit_at clock t = record t {
  status = target;
  credit_at = some credit_at;
  updated_at = clock;
  detected_at = if status_beq target orphaned then some clock else t.detected_at;
}

unfoldable pub apply_credit : ℕ → Memory → Text → Text → Status → ℕ → Memory × Result Transaction
apply_credit clock m tenant id target credit_at = elim (lookup (tenant, id) m.by_tenant) [
  | none ↦ (m, err not_found)
  | some t ↦ elim (transition t.status target) [
    | some e ↦ (m, err (illegal e))
    | none ↦
        let t' = with_credit target credit_at clock t in
        (record m { by_tenant = insert (tenant, id) t' m.by_tenant }, ok t')
  ]
]

-- The `switch` on the running total.
unfoldable pub settle : Transaction → Status
settle t =
    if ltℤ (expected_credit t) t.credited_minor
    then suspect
    else if eqℤ t.credited_minor (expected_credit t)
    then completed
    else t.status

-- What a credit that was not counted before does to the transaction.
unfoldable pub accumulate : ℕ → CreditEvent → Transaction → Transaction
unfolding settle
accumulate clock c t =
    if differs c.currency t.currency
    then record t { status = suspect; updated_at = clock }
    else let t' = record t {
      credited_minor = add64 t.credited_minor c.amount_minor;
      credit_at = some c.credit_at;
      updated_at = clock;
    } in
      record t' { status = settle t' }

unfoldable pub apply_partial_credit : ℕ → Memory → Text → CreditEvent → Memory × Result Transaction
apply_partial_credit clock m tenant c = elim (lookup (tenant, c.transaction_id) m.by_tenant) [
  | none ↦ (m, err not_found)
  | some t ↦
      if not (is_open t.status)
      then (m, err (illegal (invalid_transition t.status completed)))
      else if contains m.applied (tenant, c.idempotency_key)
      then (m, ok t)
      else let t' = accumulate clock c t in
        (
          record m {
            applied = (tenant, c.idempotency_key) ∷ m.applied;
            by_tenant = insert (tenant, c.transaction_id) t' m.by_tenant;
          },
          ok t',
        )
]
