-- ===== src/Store/Endpoints.antt =====
-- internal/store/memory_webhook.go: the endpoints of the store.
use recon_sync.Common.{
  Bool, not, Option, none, some, List, Text, ascii, lookup, insert, delete, has, if◌then◌else◌,
  select, map, sort_slice, text_beq, text_eq, nat_eq,
}
use recon_sync.Domain.Status.{text_less}
use recon_sync.Domain.Errors.{Error, not_found, tenant_mismatch, failure}
use recon_sync.Store.State.{Memory, WebhookEndpoint}

unfoldable pub create_endpoint : Memory → Text → WebhookEndpoint → Memory × Option Error
create_endpoint m tenant ep =
    if not (text_beq ep.tenant_id tenant)
    then (m, some tenant_mismatch)
    else if has ep.id m.endpoints
    then (m, some (failure (ascii "store: endpoint already exists")))
    else (record m { endpoints = insert ep.id ep m.endpoints }, none)

-- The endpoint under an identifier, if it is the tenant's.
unfoldable pub own_endpoint : Memory → Text → Text → Option WebhookEndpoint
own_endpoint m tenant id = elim (lookup id m.endpoints) [
  | none ↦ none
  | some ep ↦ if not (text_beq ep.tenant_id tenant) then none else some ep
]

unfoldable pub set_endpoint_enabled : Memory → Text → Text → Bool → Memory × Option Error
unfolding own_endpoint
set_endpoint_enabled m tenant id enabled = elim (own_endpoint m tenant id) [
  | none ↦ (m, some not_found)
  | some ep ↦
      (record m { endpoints = insert id (record ep { enabled = enabled }) m.endpoints }, none)
]

unfoldable pub set_endpoint_secret_ref : Memory → Text → Text → Text → Memory × Option Error
unfolding own_endpoint
set_endpoint_secret_ref m tenant id ref = elim (own_endpoint m tenant id) [
  | none ↦ (m, some not_found)
  | some ep ↦
      (record m { endpoints = insert id (record ep { secret_ref = ref }) m.endpoints }, none)
]

unfoldable pub delete_endpoint : Memory → Text → Text → Memory × Option Error
unfolding own_endpoint
delete_endpoint m tenant id = elim (own_endpoint m tenant id) [
  | none ↦ (m, some not_found)
  | some ep ↦ (record m { endpoints = delete id m.endpoints }, none)
]

abbrev pub second_of {ℓ κ} : {A : Type ℓ} {B : Type κ} → A × B → B
second_of p = p.1

unfoldable pub list_endpoints : Memory → Text → List WebhookEndpoint
list_endpoints m tenant =
    sort_slice (λ (a b : WebhookEndpoint). text_less a.id b.id)
      (select (λ (ep : WebhookEndpoint). text_beq ep.tenant_id tenant) (map second_of m.endpoints))
