-- ===== src/Store/Parking.antt =====
-- internal/store/memory.go: credits that wait for their debit.
use recon_sync.Common.{
  not, Option, none, some, List, [], ◌∷◌, Text, lookup, insert, delete, has, if◌then◌else◌, text_eq,
  pair_eq, text_beq,
}
use recon_sync.Domain.Errors.{Error, tenant_mismatch}
use recon_sync.Domain.Transaction.{CreditEvent}
use recon_sync.Store.State.{Memory}

unfoldable pub park_credit : Memory → Text → CreditEvent → Memory × Option Error
park_credit m tenant ev =
    if not (text_beq ev.tenant_id tenant)
    then (m, some tenant_mismatch)
    else if has (tenant, ev.transaction_id) m.parked
    then (m, none)
    else (record m { parked = insert (tenant, ev.transaction_id) ev m.parked }, none)

unfoldable pub peek_parked_credits : Memory → Text → List Text → List CreditEvent
peek_parked_credits m tenant [] = []
peek_parked_credits m tenant (id ∷ ids) =
    let rest = peek_parked_credits m tenant ids in
    elim (lookup (tenant, id) m.parked) [ none ↦ rest | some ev ↦ ev ∷ rest ]

unfoldable pub delete_parked_credit : Memory → Text → Text → Memory
delete_parked_credit m tenant id = record m { parked = delete (tenant, id) m.parked }
