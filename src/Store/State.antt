-- ===== src/Store/State.antt =====
-- internal/store/store.go and memory.go: the state of `Memory`. A map of maps is a map over pairs
-- of keys: an inner map that is missing and one that is empty read alike. The lock makes each
-- method one step. `time.Now()` inside a method is its argument `clock`.
use recon_sync.Common.{ℕ, Bool, List, [], Option, Text, Dict}
use recon_sync.Domain.Transaction.{Transaction, CreditEvent}
use recon_sync.Rules.{Rule}
use recon_sync.Audit.Chain.{Record}
use recon_sync.Audit.Checkpoint.{Checkpoint}

-- A tenant and one of its transactions, idempotency keys or minutes.
abbrev pub Key : Type 0
Key = Text × Text

pub record WebhookEndpoint : Type 0 where
  pub id : Text
  pub tenant_id : Text
  pub url : Text
  pub secret_ref : Text
  pub events : List Text
  pub enabled : Bool

-- `DeliveryRecord`, as the queue keeps it.
pub record DeliveryRecord : Type 0 where
  pub id : ℕ
  pub tenant_id : Text
  pub endpoint_id : Text
  pub transaction_id : Text
  pub event_type : Text
  pub attempt : ℕ
  pub status : Text
  pub response_code : Option ℕ
  pub response_body : Text
  pub duration_ms : Option ℕ
  pub next_retry_at : Option ℕ
  pub created_at : ℕ

pub record IngestSample : Type 0 where
  pub tenant_id : Text
  pub bucket : ℕ
  pub received : ℕ
  pub dropped : ℕ
  pub handler_errors : ℕ

pub record ReversalClaim : Type 0 where
  pub tenant_id : Text
  pub transaction_id : Text
  pub claim_token : Text
  pub claimed_by : Text
  pub claimed_at : ℕ
  pub confirmed_at : Option ℕ

-- `auth.Record`: what is kept of an API key.
pub record ApiKeyRecord : Type 0 where
  pub id : Text
  pub tenant_id : Text
  pub prefix : Text
  pub hash : Text
  pub scopes : List Text
  pub environment : Text
  pub revoked_at : Option ℕ

pub record Memory : Type 0 where
  pub by_tenant : Dict Key Transaction
  pub idem : List Key
  pub parked : Dict Key CreditEvent
  pub endpoints : Dict Text WebhookEndpoint
  pub deliveries : Dict ℕ DeliveryRecord
  pub payloads : Dict ℕ Text
  pub rules : Dict Text (List Rule)
  pub health : Dict (Text × ℕ) IngestSample
  pub silence : Dict Text ℕ
  pub claims : Dict Key ReversalClaim
  pub applied : List Key
  pub audit : Dict Text (List Record)
  pub checkpoints : Dict Text (List Checkpoint)
  pub api_keys : Dict Text ApiKeyRecord
  pub next_id : ℕ
  pub next_delivery_id : ℕ
  pub next_rule_id : ℕ

unfoldable pub new_memory : Memory
new_memory = record {
  by_tenant = [];
  idem = [];
  parked = [];
  endpoints = [];
  deliveries = [];
  payloads = [];
  rules = [];
  health = [];
  silence = [];
  claims = [];
  applied = [];
  audit = [];
  checkpoints = [];
  api_keys = [];
  next_id = 0;
  next_delivery_id = 0;
  next_rule_id = 0;
}
