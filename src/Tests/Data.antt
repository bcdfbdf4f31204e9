-- ===== src/Tests/Data.antt =====
-- Test data: a transfer of 500 to one bank, its store, a credit.
use recon_sync.Common.{ℕ, Bool, none, some, [], ◌∷◌, Text, ascii, pos}
use recon_sync.Domain.Status.{Status, pending_debit}
use recon_sync.Domain.Transaction.{Transaction, CreditEvent, DebitEvent, end, success}
use recon_sync.Store.State.{Key, Memory, DeliveryRecord, WebhookEndpoint}
use recon_sync.Webhook.Decide.{pending}

abbrev pub bank : Text
bank = ascii "bank"

abbrev pub tx1 : Text
tx1 = ascii "tx1"

abbrev pub key1 : Key
key1 = (bank, tx1)

abbrev pub ngn : Text
ngn = ascii "NGN"

abbrev pub transfer : Status → Transaction
transfer status = record {
  id = 1;
  tenant_id = bank;
  transaction_id = tx1;
  idempotency_key = ascii "k1";
  transaction_type = ascii "transfer";
  provider = ascii "nip";
  amount_minor = pos 500;
  currency = ngn;
  status = status;
  debit_at = 10;
  credit_at = none;
  expected_completion_at = 20;
  detected_at = none;
  reversal_triggered_at = none;
  reversal_completed_at = none;
  customer_ref_hash = [];
  expected_credit_minor = pos 0;
  credited_minor = pos 0;
  metadata = end;
  is_backfill = Bool.false;
  sla_warned_at = none;
  created_at = 10;
  updated_at = 10;
}

abbrev pub delivery : DeliveryRecord
delivery = record {
  id = 1;
  tenant_id = bank;
  endpoint_id = ascii "ep";
  transaction_id = tx1;
  event_type = ascii "reversal.triggered";
  attempt = 0;
  status = pending;
  response_code = none;
  response_body = [];
  duration_ms = none;
  next_retry_at = some 30;
  created_at = 30;
}

abbrev pub endpoint : WebhookEndpoint
endpoint = record {
  id = ascii "ep";
  tenant_id = bank;
  url = ascii "https://bank.example";
  secret_ref = ascii "env://SECRET";
  events = [];
  enabled = Bool.true;
}

-- A store that holds the transfer, with one delivery in its queue.
abbrev pub holding : Transaction → Memory
holding t = record {
  by_tenant = (key1, t) ∷ [];
  idem = [];
  parked = [];
  endpoints = (ascii "ep", endpoint) ∷ [];
  deliveries = (1, delivery) ∷ [];
  payloads = (1, ascii "payload") ∷ [];
  rules = [];
  health = [];
  silence = [];
  claims = [];
  applied = [];
  audit = [];
  checkpoints = [];
  api_keys = [];
  next_id = 1;
  next_delivery_id = 1;
  next_rule_id = 0;
}

abbrev pub opened : Memory
opened = holding (transfer pending_debit)

abbrev pub credit_of : ℕ → Text → CreditEvent
credit_of amount key = record {
  tenant_id = bank;
  transaction_id = tx1;
  idempotency_key = key;
  credit_at = 15;
  provider_reference = [];
  status = success;
  amount_minor = pos amount;
  currency = ngn;
}

abbrev pub debit : DebitEvent
debit = record {
  tenant_id = bank;
  transaction_id = tx1;
  idempotency_key = ascii "k1";
  transaction_type = ascii "transfer";
  provider = ascii "nip";
  amount_minor = pos 500;
  currency = ngn;
  debit_at = 10;
  customer_ref = [];
  metadata = end;
  expected_credit_minor = pos 0;
  is_backfill = Bool.false;
}
