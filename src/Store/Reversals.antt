-- ===== src/Store/Reversals.antt =====
-- internal/store/memory.go: `markReversal` and its five callers.
use recon_sync.Common.{ℕ, Option, none, some, Text, lookup, insert, text_eq, pair_eq}
use recon_sync.Domain.Status.{
  Status, completed, suspect, reversal_pending, reversal_completed, reversal_failed, transition,
}
use recon_sync.Domain.Errors.{not_found, illegal, Result, ok, err}
use recon_sync.Domain.Transaction.{Transaction}
use recon_sync.Store.State.{Memory}

-- A credit time that is there already is kept.
abbrev pub first_time : Option ℕ → ℕ → Option ℕ
first_time none stamp = some stamp
first_time (some t) stamp = some t

-- The `switch` on the target.
abbrev pub stamped : Status → ℕ → Transaction → Transaction
stamped reversal_pending stamp t = record t { reversal_triggered_at = some stamp }
stamped reversal_completed stamp t = record t { reversal_completed_at = some stamp }
stamped completed stamp t = record t { credit_at = first_time t.credit_at stamp }
stamped _ stamp t = t

abbrev pub marked : Status → ℕ → ℕ → Transaction → Transaction
marked target stamp clock t = record (stamped target stamp t) {
  status = target;
  updated_at = clock;
}

unfoldable pub mark_reversal : ℕ → Memory → Text → Text → Status → ℕ → Memory × Result Transaction
mark_reversal clock m tenant id target at = elim (lookup (tenant, id) m.by_tenant) [
  | none ↦ (m, err not_found)
  | some t ↦ elim (transition t.status target) [
    | some e ↦ (m, err (illegal e))
    | none ↦
        let t' = marked target at clock t in
        (record m { by_tenant = insert (tenant, id) t' m.by_tenant }, ok t')
  ]
]

module _ (clock : ℕ) (m : Memory) (tenant id : Text) (at : ℕ) where
  unfoldable pub mark_settled : Memory × Result Transaction
  unfolding mark_reversal
  mark_settled = mark_reversal clock m tenant id completed at

  unfoldable pub mark_uncertain : Memory × Result Transaction
  unfolding mark_reversal
  mark_uncertain = mark_reversal clock m tenant id suspect at

  unfoldable pub mark_reversal_pending : Memory × Result Transaction
  unfolding mark_reversal
  mark_reversal_pending = mark_reversal clock m tenant id reversal_pending at

  unfoldable pub mark_reversal_completed : Memory × Result Transaction
  unfolding mark_reversal
  mark_reversal_completed = mark_reversal clock m tenant id reversal_completed at

  unfoldable pub mark_reversal_failed : Memory × Result Transaction
  unfolding mark_reversal
  mark_reversal_failed = mark_reversal clock m tenant id reversal_failed at
