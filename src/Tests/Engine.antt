-- ===== src/Tests/Engine.antt =====
-- The properties of the correlation engine, on a credit before its debit and on a batch.
use recon_sync.Common.{
  ◌≡◌, ◌≤◌, refl, none, some, List, [], ◌∷◌, ascii, lookup, length, text_eq, pair_eq, contains,
  delete, insert, add64, add_time, seconds64,
}
use recon_sync.Domain.Status.{
  pending_debit, allowed_transitions, can_transition, is_open, transition,
}
use recon_sync.Domain.Errors.{ok}
use recon_sync.Domain.Transaction.{credit_valid, expected_credit, target_status}
use recon_sync.Domain.Event.{Event, event_tenant_id, validate_event, event_transaction_id}
use recon_sync.Store.State.{new_memory}
use recon_sync.Store.Debits.{stored, upsert_debits, upsert_loop, upsert_one, same_tenant}
use recon_sync.Correlate.Credit.{
  credit_parked, try_apply, drain_parked, correlate_credit, screen_credit, drain_loop,
}
use recon_sync.Correlate.Early.{early_credit}
use recon_sync.Correlate.Apply.{
  apply_events, apply_batch, apply_credits, hash_customer_ref, judge_event, sort_events,
  to_transaction,
}
use recon_sync.Correlate.Account.{counted, apply_events-counted}
use recon_sync.Domain.Validate.{
  validate_debit, require_identifier, validate_currency, check_letters, validate_credit,
}
use recon_sync.Domain.Sensitive.Scan.{
  screen_metadata, screen_value, screen_string, contains_card_number, scan, run_is_pan,
}
use recon_sync.Rules.{better, find_best, matches, resolve, specificity}
use recon_sync.Store.Credits.{accumulate, apply_credit, apply_partial_credit, settle}
use recon_sync.Store.Parking.{delete_parked_credit, park_credit, peek_parked_credits}
use recon_sync.Tests.Data.{bank, tx1, key1, transfer, debit, credit_of}

early_credit_example :
    let c = credit_of 500 (ascii "c1") in
    let ts = transfer pending_debit ∷ [] in
    let early = correlate_credit 15 new_memory bank c in
    let late = (upsert_debits 16 early.0 bank ts).0 in
    let drained = (drain_parked 17 late bank (tx1 ∷ [])).0 in
    let direct = (try_apply 17 (upsert_debits 16 new_memory bank ts).0 bank c).0 in
    (early.1 ≡ ok credit_parked)
    × (drained.by_tenant ≡ direct.by_tenant)
    × (drained.applied ≡ direct.applied)
    × (lookup key1 drained.parked ≡ none)
unfolding lookup credit_valid new_memory upsert_debits upsert_loop upsert_one contains insert
early_credit_example =
    early_credit 15 16 17 new_memory bank (credit_of 500 (ascii "c1")) (transfer pending_debit ∷ [])
      (stored 16 new_memory (transfer pending_debit)) refl refl refl refl refl

abbrev events : List Event
events =
    record { debit = some debit; credit = none }
    ∷ record { debit = none; credit = some (credit_of 500 (ascii "c1")) }
    ∷ record { debit = none; credit = none }
    ∷ []

apply_events-counted_example :
    length events
    ≤ counted (apply_events (λ s. s) 15 new_memory bank (ok []) (ok (ascii "salt")) events).1.0
unfolding contains delete insert lookup add64 add_time seconds64 event_tenant_id validate_event
    event_transaction_id validate_debit require_identifier validate_currency check_letters
    validate_credit screen_metadata screen_value screen_string contains_card_number scan run_is_pan
    upsert_debits upsert_loop upsert_one same_tenant screen_credit correlate_credit drain_loop
    drain_parked try_apply apply_events apply_batch apply_credits hash_customer_ref judge_event
    sort_events to_transaction allowed_transitions can_transition is_open transition credit_valid
    expected_credit target_status better find_best matches resolve specificity accumulate
    apply_credit apply_partial_credit settle delete_parked_credit park_credit peek_parked_credits
    new_memory
apply_events-counted_example =
    apply_events-counted (λ s. s) 15 new_memory bank [] (ascii "salt") events refl
