-- ===== src/Correlate/Apply.antt =====
-- internal/correlate/correlate.go, `Apply`: one batch of events of one tenant.

use recon_sync.Common.{
  ℕ, ◌+◌, not, Option, none, some, List, [], ◌∷◌, Text, ascii, pos, add_time, length, ◌++◌, ◌==◌,
  text_beq, if◌then◌else◌,
}
use recon_sync.Domain.Status.{pending_debit}
use recon_sync.Domain.Errors.{Error, empty_event, tenant_mismatch, Result, ok, err}
use recon_sync.Domain.Transaction.{Transaction, DebitEvent, CreditEvent}
use recon_sync.Domain.Event.{Event, event_tenant_id, event_transaction_id, validate_event}
use recon_sync.Domain.Sensitive.Scan.{screen_metadata, screen_string}
use recon_sync.Rules.{Rule, resolve}
use recon_sync.Store.State.{Memory}
use recon_sync.Store.Debits.{UpsertResult, upsert_debits}
use recon_sync.Correlate.Credit.{
  CreditOutcome, credit_applied, credit_parked, credit_ignored, credit_not_found, drain_parked,
  correlate_credit, screen_credit,
}

pub record Rejection : Type 0 where
  pub transaction_id : Text
  pub cause : Error

-- `Result` of the engine.
pub record Summary : Type 0 where
  pub debits_stored : ℕ
  pub debits_duplicate : ℕ
  pub credits_applied : ℕ
  pub credits_parked : ℕ
  pub credits_ignored : ℕ
  pub rejections : List Rejection

-- What the loop over the events makes of one of them.
pub data Verdict : Type 0 where
  rejected : Error → Verdict
  accepted_debit : Transaction → Verdict
  accepted_credit : CreditEvent → Verdict

-- The batch, sorted.
pub record Batch : Type 0 where
  pub debits : List Transaction
  pub credits : List CreditEvent
  pub refused : List Rejection

abbrev pub add_verdict : Event → Verdict → Batch → Batch
add_verdict ev (rejected e) b = record b {
  refused = record { transaction_id = event_transaction_id ev; cause = e } ∷ b.refused;
}
add_verdict ev (accepted_debit t) b = record b { debits = t ∷ b.debits }
add_verdict ev (accepted_credit c) b = record b { credits = c ∷ b.credits }

-- The `switch` on the outcome of a credit.
abbrev pub count_credit : CreditOutcome → Summary → Summary
count_credit credit_applied res = record res { credits_applied = res.credits_applied + 1 }
count_credit credit_parked res = record res { credits_parked = res.credits_parked + 1 }
count_credit credit_ignored res = record res { credits_ignored = res.credits_ignored + 1 }
count_credit credit_not_found res = res

-- The loop over the credits.
unfoldable pub apply_credits :
    ℕ → Text → Memory → Summary → List CreditEvent → Memory × (Summary × Option Error)
unfolding correlate_credit
apply_credits clock tenant m res [] = (m, (res, none))
apply_credits clock tenant m res (c ∷ credits) =
    let (m', outcome) = correlate_credit clock m tenant c in
    elim outcome [
      | err e ↦ (m', (res, some e))
      | ok o ↦ apply_credits clock tenant m' (count_credit o res) credits
    ]

-- `if len(debits) > 0`, and `if len(storedIDs) > 0`.
abbrev pub store_debits : ℕ → Memory → Text → List Transaction → Memory × Result UpsertResult
store_debits clock m tenant [] = (m, ok (record { inserted = []; duplicates = [] }))
store_debits clock m tenant (t ∷ ts) = upsert_debits clock m tenant (t ∷ ts)

abbrev pub drain_stored : ℕ → Memory → Text → List Text → Memory × Result ℕ
drain_stored clock m tenant [] = (m, ok 0)
drain_stored clock m tenant (id ∷ ids) = drain_parked clock m tenant (id ∷ ids)

abbrev pub nothing_done : List Rejection → Summary
nothing_done refused = record {
  debits_stored = 0;
  debits_duplicate = 0;
  credits_applied = 0;
  credits_parked = 0;
  credits_ignored = 0;
  rejections = refused;
}

abbrev pub with_debits : UpsertResult → Summary → Summary
with_debits up res = record res {
  debits_stored = length up.inserted;
  debits_duplicate = length up.duplicates;
}

-- `Apply` behind the loop that sorts the batch.
unfoldable pub apply_batch : ℕ → Memory → Text → Batch → Memory × (Summary × Option Error)
unfolding apply_credits
apply_batch clock m tenant b =
    let none_yet = nothing_done b.refused in
    let (m1, upserted) = store_debits clock m tenant b.debits in
    elim upserted [
      | err e ↦ (m1, (none_yet, some e))
      | ok up ↦
          let res = with_debits up none_yet in
          let (m2, drained) = drain_stored clock m1 tenant up.inserted in
          elim drained [
            | err e ↦ (m2, (res, some e))
            | ok n ↦ apply_credits clock tenant m2 (record res { credits_applied = n }) b.credits
          ]
    ]

-- What hashes a salt and a reference: SHA-256 in hexadecimal.
module _ (sha : Text → Text) where
  unfoldable pub hash_customer_ref : Text → Text → Text
  hash_customer_ref salt ref = if length ref == 0 then [] else sha (salt ++ b'|' ∷ ref)

  abbrev unscheduled : Text → DebitEvent → Transaction
  unscheduled hash d = record {
    id = 0;
    tenant_id = d.tenant_id;
    transaction_id = d.transaction_id;
    idempotency_key = d.idempotency_key;
    transaction_type = d.transaction_type;
    provider = d.provider;
    amount_minor = d.amount_minor;
    currency = d.currency;
    status = pending_debit;
    debit_at = d.debit_at;
    credit_at = none;
    expected_completion_at = 0;
    detected_at = none;
    reversal_triggered_at = none;
    reversal_completed_at = none;
    customer_ref_hash = hash;
    expected_credit_minor = d.expected_credit_minor;
    credited_minor = pos 0;
    metadata = d.metadata;
    is_backfill = d.is_backfill;
    sla_warned_at = none;
    created_at = 0;
    updated_at = 0;
  }

  unfoldable pub to_transaction : List Rule → Text → DebitEvent → Result Transaction
  unfolding hash_customer_ref
  to_transaction rules salt d = elim (screen_metadata d.metadata) [
    | some e ↦ err e
    | none ↦ elim (screen_string (ascii "transaction_id") d.transaction_id) [
      | some e ↦ err e
      | none ↦
          let t = unscheduled (hash_customer_ref salt d.customer_ref) d in
          ok (record t { expected_completion_at = add_time d.debit_at (resolve rules t).window })
    ]
  ]

  -- An event that carries neither leg does not pass `Validate`, so the last case is not met.
  unfoldable pub judge_event : Text → List Rule → Text → Event → Verdict
  unfolding to_transaction
  judge_event tenant rules salt ev =
      if not (text_beq (event_tenant_id ev) tenant)
      then rejected tenant_mismatch
      else elim (validate_event ev) [
        | some e ↦ rejected e
        | none ↦ elim ev.debit [
          | some d ↦ elim (to_transaction rules salt d) [
            | err e ↦ rejected e
            | ok t ↦ accepted_debit t
          ]
          | none ↦ elim ev.credit [
            | some c ↦ elim (screen_credit c) [ some e ↦ rejected e | none ↦ accepted_credit c ]
            | none ↦ rejected empty_event
          ]
        ]
      ]

  unfoldable pub sort_events : Text → List Rule → Text → List Event → Batch
  unfolding judge_event
  sort_events tenant rules salt [] = record { debits = []; credits = []; refused = [] }
  sort_events tenant rules salt (ev ∷ events) =
      add_verdict ev (judge_event tenant rules salt ev) (sort_events tenant rules salt events)

  -- `Apply`, with what its loads of the rules and of the salt give.
  unfoldable pub apply_events :
      ℕ
      → Memory
      → Text
      → Result (List Rule)
      → Result Text
      → List Event
      → Memory × (Summary × Option Error)
  unfolding sort_events apply_batch
  apply_events clock m tenant (err e) salt events = (m, (nothing_done [], some e))
  apply_events clock m tenant (ok rules) (err e) events = (m, (nothing_done [], some e))
  apply_events clock m tenant (ok rules) (ok salt) events =
      apply_batch clock m tenant (sort_events tenant rules salt events)
