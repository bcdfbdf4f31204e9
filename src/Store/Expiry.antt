-- ===== src/Store/Expiry.antt =====
-- internal/store/memory.go: `ClaimExpired` and `ClaimSLAAtRisk`. The pointers that are sorted and
-- cut are keys here; what a pointer leads to is looked up when it is written.
use recon_sync.Common.{
  ℕ, ◌+◌, Bool, false, not, ◌&&◌, ◌||◌, none, some, List, [], ◌∷◌, Text, lookup, insert, contains,
  if◌then◌else◌, ltb, ◌==◌, length, take, select, map, sort_slice, text_eq, pair_eq, is_some,
}
use recon_sync.Domain.Status.{
  Status, pending_unknown, suspect, orphaned, reversal_pending, reversal_failed, status_beq,
}
use recon_sync.Domain.Transaction.{Transaction, is_expired_at}
use recon_sync.Store.State.{Key, Memory}
use recon_sync.Store.Health.{has_ingest_gap}

abbrev pub Entry : Type 0
Entry = Key × Transaction

abbrev pub is_due : ℕ → List Text → Entry → Bool
is_due now skip e = not (contains skip e.0.0) && is_expired_at e.1 now

abbrev earlier_deadline : Entry → Entry → Bool
earlier_deadline a b = ltb a.1.expected_completion_at b.1.expected_completion_at

-- `if limit > 0 && len(due) > limit { due = due[:limit] }`.
abbrev pub cut : ℕ → List Entry → List Entry
cut limit due = if ltb 0 limit && ltb limit (length due) then take limit due else due

-- What a claim does to an expired transaction.
unfoldable pub claim_target : Memory → Transaction → Status
claim_target m t =
    if has_ingest_gap m t.tenant_id t.debit_at t.expected_completion_at
    then suspect
    else if status_beq t.status pending_unknown
    then suspect
    else orphaned

unfoldable pub claimed : ℕ → Memory → Transaction → Transaction
unfolding claim_target
claimed now m t = record t { status = claim_target m t; detected_at = some now; updated_at = now }

unfoldable pub claim_loop : ℕ → Memory → List Key → Memory × List Transaction
claim_loop now m [] = (m, [])
claim_loop now m (k ∷ due) = elim (lookup k m.by_tenant) [
  | none ↦ claim_loop now m due
  | some t ↦
      let t' = claimed now m t in
      let rest = claim_loop now (record m { by_tenant = insert k t' m.by_tenant }) due in
      (rest.0, t' ∷ rest.1)
]

unfoldable pub due_entries : Memory → ℕ → ℕ → List Text → List Entry
due_entries m now limit skip =
    cut limit (sort_slice earlier_deadline (select (is_due now skip) m.by_tenant))

abbrev pub key_of : Entry → Key
key_of e = e.0

unfoldable pub claim_expired : Memory → ℕ → ℕ → List Text → Memory × List Transaction
unfolding claim_loop due_entries
claim_expired m now limit skip = claim_loop now m (map key_of (due_entries m now limit skip))

unfoldable pub sla_at_risk : Status → Bool
sla_at_risk s =
    status_beq s orphaned
    || (status_beq s reversal_pending || (status_beq s reversal_failed || status_beq s suspect))

-- `t.DebitAt.After(now + warnBefore - deadline)` skips a transaction.
abbrev pub needs_warning : ℕ → ℕ → ℕ → Entry → Bool
needs_warning now deadline warn_before e =
    if is_some e.1.sla_warned_at || (e.1.is_backfill || not (sla_at_risk e.1.status))
    then false
    else not (ltb (now + warn_before) (e.1.debit_at + deadline))

abbrev earlier_debit : Entry → Entry → Bool
earlier_debit a b = ltb a.1.debit_at b.1.debit_at

abbrev pub warned : ℕ → Transaction → Transaction
warned now t = record t { sla_warned_at = some now; updated_at = now }

abbrev pub after_warning : ℕ → Memory → Key → Transaction → Memory
after_warning now m k t = record m { by_tenant = insert k (warned now t) m.by_tenant }

unfoldable pub warn_loop : ℕ → Memory → List Key → Memory × List Transaction
warn_loop now m [] = (m, [])
warn_loop now m (k ∷ due) = elim (lookup k m.by_tenant) [
  | none ↦ warn_loop now m due
  | some t ↦
      let rest = warn_loop now (after_warning now m k t) due in (rest.0, warned now t ∷ rest.1)
]

unfoldable pub claim_sla_at_risk : Memory → ℕ → ℕ → ℕ → ℕ → Memory × List Transaction
unfolding warn_loop sla_at_risk
claim_sla_at_risk m now deadline warn_before limit =
    let most : ℕ = if limit == 0 then 500 else limit in
    let due =
      sort_slice earlier_debit (select (needs_warning now deadline warn_before) m.by_tenant) in
    warn_loop now m (map key_of (cut most due))
