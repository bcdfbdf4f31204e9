-- ===== src/Store/Webhooks.antt =====
-- internal/store/memory_webhook.go: the delivery queue of the store. A lease or a
-- limit of 0 stands for any that is not positive. A record is found under its own identifier.
pub mod Lease
use recon_sync.Common.{
  ℕ, ◌+◌, Bool, true, false, not, ◌&&◌, ◌||◌, Option, none, some, List, [], ◌∷◌, Text, ascii, Dict,
  lookup, insert, delete, has, length, ltb, leb, ◌==◌, if◌then◌else◌, take, select, map, sort_slice,
  text_beq, text_eq, nat_eq,
}
use recon_sync.Domain.Status.{text_less}
use recon_sync.Domain.Errors.{Error, not_found, tenant_mismatch, failure, Result, ok, err}
use recon_sync.Store.State.{Memory, WebhookEndpoint, DeliveryRecord}
use recon_sync.Store.Endpoints.{second_of}
use recon_sync.Webhook.Decide.{pending, failed, dead_letter}

pub record PendingDelivery : Type 0 where
  pub tenant_id : Text
  pub endpoint_id : Text
  pub transaction_id : Text
  pub event_type : Text
  pub payload : Text

pub record DueDelivery : Type 0 where
  pub id : ℕ
  pub tenant_id : Text
  pub endpoint_id : Text
  pub transaction_id : Text
  pub event_type : Text
  pub payload : Text
  pub attempt : ℕ
  pub url : Text
  pub secret_ref : Text

pub record DeliveryOutcome : Type 0 where
  pub status : Text
  pub response_code : Option ℕ
  pub response_body : Text
  pub duration_ms : ℕ
  pub next_retry_at : Option ℕ

abbrev pub queued : ℕ → ℕ → Text → PendingDelivery → DeliveryRecord
queued clock id tenant d = record {
  id = id;
  tenant_id = tenant;
  endpoint_id = d.endpoint_id;
  transaction_id = d.transaction_id;
  event_type = d.event_type;
  attempt = 0;
  status = pending;
  response_code = none;
  response_body = [];
  duration_ms = none;
  next_retry_at = some clock;
  created_at = clock;
}

unfoldable pub enqueue_delivery : ℕ → Memory → Text → PendingDelivery → Memory × Result ℕ
enqueue_delivery clock m tenant d =
    let id = m.next_delivery_id + 1 in
    if not (text_beq d.tenant_id tenant) then (m, err tenant_mismatch) else (
      record m {
        next_delivery_id = id;
        deliveries = insert id (queued clock id tenant d) m.deliveries;
        payloads = insert id d.payload m.payloads;
      },
      ok id,
    )

-- An entry of the queue.
abbrev pub Queued : Type 0
Queued = ℕ × DeliveryRecord

-- The retry time is set and is not after `now`.
abbrev pub has_come : Option ℕ → ℕ → Bool
has_come none now = false
has_come (some t) now = leb t now

abbrev endpoint_enabled : Option WebhookEndpoint → Bool
endpoint_enabled none = false
endpoint_enabled (some ep) = ep.enabled

unfoldable pub is_due_delivery : Memory → ℕ → Queued → Bool
is_due_delivery m now e =
    (text_beq e.1.status pending && has_come e.1.next_retry_at now)
    && endpoint_enabled (lookup e.1.endpoint_id m.endpoints)

abbrev time_or_zero : Option ℕ → ℕ
time_or_zero none = 0
time_or_zero (some t) = t

abbrev earlier_retry : Queued → Queued → Bool
earlier_retry a b = ltb (time_or_zero a.1.next_retry_at) (time_or_zero b.1.next_retry_at)

-- A number that is not positive is replaced by the default.
abbrev pub or_default : ℕ → ℕ → ℕ
or_default n default = if n == 0 then default else n

abbrev pub default_lease : ℕ
default_lease = 60_000_000_000

unfoldable pub due_deliveries : Memory → ℕ → ℕ → List Queued
unfolding is_due_delivery
due_deliveries m now limit =
    let due = sort_slice earlier_retry (select (is_due_delivery m now) m.deliveries) in
    let most : ℕ = or_default limit 100 in if ltb most (length due) then take most due else due

abbrev pub leased : ℕ → DeliveryRecord → DeliveryRecord
leased until d = record d { next_retry_at = some until }

abbrev text_or_empty : Option Text → Text
text_or_empty none = []
text_or_empty (some t) = t

-- The endpoint is there, since the delivery is due.
abbrev url_of : Option WebhookEndpoint → Text
url_of none = []
url_of (some ep) = ep.url

abbrev secret_ref_of : Option WebhookEndpoint → Text
secret_ref_of none = []
secret_ref_of (some ep) = ep.secret_ref

unfoldable pub due_delivery : Memory → DeliveryRecord → DueDelivery
due_delivery m d = record {
  id = d.id;
  tenant_id = d.tenant_id;
  endpoint_id = d.endpoint_id;
  transaction_id = d.transaction_id;
  event_type = d.event_type;
  payload = text_or_empty (lookup d.id m.payloads);
  attempt = d.attempt;
  url = url_of (lookup d.endpoint_id m.endpoints);
  secret_ref = secret_ref_of (lookup d.endpoint_id m.endpoints);
}

-- The loop that leases the deliveries forward.
unfoldable pub lease_loop : ℕ → Memory → List Queued → Memory × List DueDelivery
unfolding due_delivery
lease_loop until m [] = (m, [])
lease_loop until m (e ∷ due) =
    let m' : Memory = record m { deliveries = insert e.0 (leased until e.1) m.deliveries } in
    let rest = lease_loop until m' due in (rest.0, due_delivery m e.1 ∷ rest.1)

unfoldable pub claim_due_deliveries : Memory → ℕ → ℕ → ℕ → Memory × List DueDelivery
unfolding due_deliveries lease_loop
claim_due_deliveries m now lease limit =
    lease_loop (now + or_default lease default_lease) m (due_deliveries m now limit)

-- `maxStoredResponseBody`.
abbrev pub max_stored_response_body : ℕ
max_stored_response_body = 1_024

abbrev pub recorded : DeliveryOutcome → DeliveryRecord → DeliveryRecord
recorded out d = record d {
  attempt = d.attempt + 1;
  status = out.status;
  response_code = out.response_code;
  response_body =
      (if ltb max_stored_response_body (length out.response_body)
        then take max_stored_response_body out.response_body
        else out.response_body);
  duration_ms = some out.duration_ms;
  next_retry_at = out.next_retry_at;
}

unfoldable pub record_delivery_outcome : Memory → ℕ → DeliveryOutcome → Memory × Option Error
record_delivery_outcome m id out = elim (lookup id m.deliveries) [
  | none ↦ (m, some not_found)
  | some d ↦ (record m { deliveries = insert id (recorded out d) m.deliveries }, none)
]

unfoldable pub list_deliveries : Memory → Text → Text → ℕ → List DeliveryRecord
list_deliveries m tenant status limit =
    let wanted : DeliveryRecord → Bool =
      λ d. text_beq d.tenant_id tenant && (length status == 0 || text_beq d.status status) in
    let out : List DeliveryRecord =
      sort_slice (λ (a b : DeliveryRecord). ltb b.id a.id)
        (select wanted (map second_of m.deliveries)) in
    let most : ℕ = or_default limit 100 in if ltb most (length out) then take most out else out

unfoldable pub replay_delivery : ℕ → Memory → Text → ℕ → Memory × Option Error
replay_delivery clock m tenant id = elim (lookup id m.deliveries) [
  | none ↦ (m, some not_found)
  | some d ↦
      if not (text_beq d.tenant_id tenant)
      then (m, some not_found)
      else if not (text_beq d.status dead_letter) && not (text_beq d.status failed)
      then (m, some not_found)
      else let d' : DeliveryRecord = record d {
        status = pending;
        attempt = 0;
        next_retry_at = some clock;
      } in
        (record m { deliveries = insert id d' m.deliveries }, none)
]
