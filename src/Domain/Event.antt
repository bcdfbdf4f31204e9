-- ===== src/Domain/Event.antt =====
-- internal/domain/event.go: the envelope that carries one of the two legs.
use recon_sync.Common.{Option, none, some, Text, []}
use recon_sync.Domain.Errors.{Error, empty_event}
use recon_sync.Domain.Transaction.{DebitEvent, CreditEvent}
use recon_sync.Domain.Validate.{validate_debit, validate_credit}

pub record Event : Type 0 where
  pub debit : Option DebitEvent
  pub credit : Option CreditEvent

unfoldable pub new_debit_event : DebitEvent → Event
new_debit_event e = record { debit = some e; credit = none }

unfoldable pub new_credit_event : CreditEvent → Event
new_credit_event e = record { debit = none; credit = some e }

unfoldable pub event_tenant_id : Event → Text
event_tenant_id e = elim e.debit [
  | some d ↦ d.tenant_id
  | none ↦ elim e.credit [ some c ↦ c.tenant_id | none ↦ [] ]
]

unfoldable pub event_transaction_id : Event → Text
event_transaction_id e = elim e.debit [
  | some d ↦ d.transaction_id
  | none ↦ elim e.credit [ some c ↦ c.transaction_id | none ↦ [] ]
]

unfoldable pub validate_event : Event → Option Error
validate_event e = elim e.debit [
  | some d ↦ elim e.credit [ some c ↦ some empty_event | none ↦ validate_debit d ]
  | none ↦ elim e.credit [ some c ↦ validate_credit c | none ↦ some empty_event ]
]
