-- ===== src/Store/Debits.antt =====
-- internal/store/memory.go: `UpsertDebits`, `Get` and `ListByStatus`.
use recon_sync.Common.{
  ℕ, ◌+◌, Bool, true, ◌||◌, none, some, List, [], ◌∷◌, ◌++◌, Text, Dict, lookup, insert, has,
  contains, if◌then◌else◌, length, take, ltb, sort_slice, text_eq, pair_eq, text_beq, ◌&&◌,
}
use recon_sync.Domain.Status.{Status, pending_debit, status_beq}
use recon_sync.Domain.Errors.{tenant_mismatch, not_found, Result, ok, err}
use recon_sync.Domain.Transaction.{Transaction}
use recon_sync.Store.State.{Key, Memory}

pub record UpsertResult : Type 0 where
  pub inserted : List Text
  pub duplicates : List Text

-- The first loop: no transaction of another tenant.
unfoldable pub same_tenant : Text → List Transaction → Bool
same_tenant tenant [] = true
same_tenant tenant (t ∷ ts) = text_beq t.tenant_id tenant && same_tenant tenant ts

abbrev pub is_duplicate : Text → Memory → Transaction → Bool
is_duplicate tenant m t =
    contains m.idem (tenant, t.idempotency_key) || has (tenant, t.transaction_id) m.by_tenant

-- What is kept of a new debit.
abbrev pub stored : ℕ → Memory → Transaction → Transaction
stored clock m t = record t {
  id = m.next_id + 1;
  status = pending_debit;
  created_at = clock;
  updated_at = clock;
}

-- One turn of the second loop.
unfoldable pub upsert_one : ℕ → Text → Memory × UpsertResult → Transaction → Memory × UpsertResult
upsert_one clock tenant (m, res) t =
    if is_duplicate tenant m t
    then (m, record res { duplicates = res.duplicates ++ t.transaction_id ∷ [] })
    else (
      record m {
        next_id = m.next_id + 1;
        by_tenant = insert (tenant, t.transaction_id) (stored clock m t) m.by_tenant;
        idem = (tenant, t.idempotency_key) ∷ m.idem;
      },
      record res { inserted = res.inserted ++ t.transaction_id ∷ [] },
    )

unfoldable pub upsert_loop :
    ℕ → Text → Memory × UpsertResult → List Transaction → Memory × UpsertResult
upsert_loop clock tenant s [] = s
upsert_loop clock tenant s (t ∷ ts) = upsert_loop clock tenant (upsert_one clock tenant s t) ts

unfoldable pub upsert_debits : ℕ → Memory → Text → List Transaction → Memory × Result UpsertResult
unfolding same_tenant
upsert_debits clock m tenant txns =
    if same_tenant tenant txns
    then (let s = upsert_loop clock tenant (m, record { inserted = []; duplicates = [] }) txns in
        (s.0, ok s.1))
    else (m, err tenant_mismatch)

unfoldable pub get : Memory → Text → Text → Result Transaction
get m tenant id = elim (lookup (tenant, id) m.by_tenant) [ none ↦ err not_found | some t ↦ ok t ]

-- The loop of `ListByStatus`.
unfoldable pub with_status : Text → Status → Dict Key Transaction → List Transaction
with_status tenant status [] = []
with_status tenant status (((owner, id), t) ∷ txns) =
    let rest = with_status tenant status txns in
    if text_beq owner tenant && status_beq t.status status then t ∷ rest else rest

unfoldable pub list_by_status : Memory → Text → Status → ℕ → List Transaction
unfolding with_status
list_by_status m tenant status limit =
    let out =
      sort_slice (λ (a b : Transaction). ltb b.debit_at a.debit_at)
        (with_status tenant status m.by_tenant) in
    if ltb 0 limit && ltb limit (length out) then take limit out else out
