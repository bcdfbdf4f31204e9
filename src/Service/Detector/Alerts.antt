-- ===== src/Service/Detector/Alerts.antt =====
-- internal/service/detector.go: the alerts of a sweep, on streams that have stopped and on
-- deadlines that come near. A failure of a silence alert is logged only.
use recon_sync.Common.{
  ℕ, ◌+◌, Bool, true, false, not, ◌||◌, Option, none, some, List, [], ◌∷◌, Text, ascii, Dict,
  lookup, insert, text_eq, if◌then◌else◌, ltℤ, pos, pos_part, whole_seconds, sub_time,
}
use recon_sync.Domain.Errors.{Error, failure, Result, ok, err}
use recon_sync.Domain.Transaction.{Transaction, Fields, end, field, scalar}
use recon_sync.Audit.Chain.{HashedContent}
use recon_sync.Store.State.{Memory, WebhookEndpoint}
use recon_sync.Store.Ledger.{append_audit}
use recon_sync.Store.Endpoints.{list_endpoints}
use recon_sync.Store.Expiry.{claim_sla_at_risk}
use recon_sync.Store.Health.{SilenceEpisode, SilenceParams, is_disabled, sync_silence_episodes}
use recon_sync.Store.Webhooks.{enqueue_delivery}
use recon_sync.Webhook.Payload.{
  Envelope, IntegrationEnvelope, silence_envelope, recovery_envelope, at_risk_envelope,
  sla_at_risk_event,
}
use recon_sync.Service.Detector.Verdict.{Detector, Formats, SweepResult}
use recon_sync.Service.Detector.Queue.{takes, pending_for, queue_loop, about, unplaced}

abbrev pub Endpoints : Type 0
Endpoints = Dict Text (List WebhookEndpoint)

-- The endpoints of a tenant, read once per sweep.
abbrev pub endpoints_for : Memory → Text → Endpoints → Endpoints × List WebhookEndpoint
endpoints_for m tenant cache = elim (lookup tenant cache) [
  | some eps ↦ (cache, eps)
  | none ↦ (insert tenant (list_endpoints m tenant) cache, list_endpoints m tenant)
]

abbrev pub is_ok : Result ℕ → Bool
is_ok (ok n) = true
is_ok (err e) = false

-- An endpoint whose delivery cannot be queued is passed over.
unfoldable pub alert_loop :
    ℕ → Text → Text → Text → List WebhookEndpoint → Memory → Bool → Memory × Bool
unfolding enqueue_delivery
alert_loop clock tenant event payload [] m queued = (m, queued)
alert_loop clock tenant event payload (ep ∷ eps) m queued = elim (takes ep event) [
  | false ↦ alert_loop clock tenant event payload eps m queued
  | true ↦
      let (m', r) = enqueue_delivery clock m tenant (pending_for tenant [] event payload ep) in
      alert_loop clock tenant event payload eps m' (queued || is_ok r)
]

module _ (marshal_alert : IntegrationEnvelope → Option Text) where
  unfoldable pub queue_integration_alert : ℕ → Memory → Text → IntegrationEnvelope → Memory × Bool
  unfolding alert_loop
  queue_integration_alert clock m tenant env = elim (marshal_alert env) [
    | none ↦ (m, false)
    | some payload ↦ alert_loop clock tenant env.event payload (list_endpoints m tenant) m false
  ]

abbrev silence_payload : Formats → SilenceParams → SilenceEpisode → ℕ → Fields
silence_payload formats p ep now =
    field (ascii "silent_since") (scalar (formats.instant ep.silent_since)) (
      field (ascii "silent_for_seconds")
        (scalar (formats.number (whole_seconds (sub_time now ep.silent_since))))
        (field (ascii "quiet_threshold_s") (scalar (formats.number (whole_seconds (pos p.quiet))))
          end))

module _ (digest : HashedContent → Option Text) (formats : Formats) where
  unfoldable pub record_silence : ℕ → SilenceParams → Memory → Text → SilenceEpisode → ℕ → Memory
  record_silence clock p m event ep now =
      (append_audit digest clock m ep.tenant_id (
        unplaced event now (about (ascii "tenant") ep.tenant_id)
          (silence_payload formats p ep now))).0

module _ (digest : HashedContent → Option Text) (formats : Formats)
    (marshal_alert : IntegrationEnvelope → Option Text) where
  abbrev pub count_alert : Bool → ℕ → ℕ
  count_alert queued n = if queued then n + 1 else n

  -- The loops over the episodes that opened and that closed: the state, and how many were alerted.
  unfoldable pub opened_loop : ℕ → SilenceParams → ℕ → List SilenceEpisode → Memory → ℕ → Memory × ℕ
  unfolding queue_integration_alert record_silence
  opened_loop clock p now [] m n = (m, n)
  opened_loop clock p now (ep ∷ eps) m n =
      let (m', queued) =
        queue_integration_alert marshal_alert clock m ep.tenant_id
          (silence_envelope ep.tenant_id ep.silent_since now) in
      opened_loop clock p now eps
        (record_silence digest formats clock p m' (ascii "integration.silent") ep now)
        (count_alert queued n)

  unfoldable pub recovered_loop :
      ℕ → SilenceParams → ℕ → List SilenceEpisode → Memory → ℕ → Memory × ℕ
  unfolding queue_integration_alert record_silence
  recovered_loop clock p now [] m n = (m, n)
  recovered_loop clock p now (ep ∷ eps) m n =
      let (m', queued) =
        queue_integration_alert marshal_alert clock m ep.tenant_id
          (recovery_envelope ep.tenant_id ep.silent_since now) in
      recovered_loop clock p now eps
        (record_silence digest formats clock p m' (ascii "integration.recovered") ep now)
        (count_alert queued n)

  unfoldable pub alert_on_silence :
      ℕ → SilenceParams → Memory → List Text → ℕ → SweepResult → Memory × SweepResult
  unfolding opened_loop recovered_loop
  alert_on_silence clock p m silent now res =
      if is_disabled p
      then (m, res)
      else let (m1, change) = sync_silence_episodes m silent now in
        let (m2, opened) = opened_loop clock p now change.opened m1 res.silence_alerts in
        let (m3, recovered) = recovered_loop clock p now change.recovered m2 res.recovery_alerts in
        (m3, record res { silence_alerts = opened; recovery_alerts = recovered })

module _ (marshal : Envelope → Option Text) where
  -- The loop over the transactions at risk; an error ends it.
  unfoldable pub at_risk_loop :
      ℕ
      → ℕ
      → ℕ
      → List Transaction
      → Memory
      → SweepResult
      → Endpoints
      → Memory × SweepResult × Option Error
  unfolding queue_loop
  at_risk_loop clock deadline now [] m res cache = (m, res, none)
  at_risk_loop clock deadline now (t ∷ ts) m res cache =
      let (cache', eps) = endpoints_for m t.tenant_id cache in
      elim (marshal (at_risk_envelope t (t.debit_at + deadline) now)) [
        | none ↦ (m, res, some (failure (ascii "webhook: encode payload")))
        | some payload ↦
            let (m', queued, bad) =
              queue_loop clock t.tenant_id t.transaction_id sla_at_risk_event payload eps m 0 in
            elim bad [
              | some e ↦ (m', res, some e)
              | none ↦
                  at_risk_loop clock deadline now ts m' (record res { at_risk = res.at_risk + 1 })
                    cache'
            ]
      ]

  unfoldable pub warn_at_risk :
      ℕ → Detector → Memory → ℕ → SweepResult → Memory × SweepResult × Option Error
  unfolding at_risk_loop
  warn_at_risk clock d m now res =
      if not (ltℤ (pos 0) d.sla_warn_ahead)
      then (m, res, none)
      else let (m', at_risk) =
          claim_sla_at_risk m now d.deadline (pos_part d.sla_warn_ahead) d.batch in
        at_risk_loop clock d.deadline now at_risk m' res []
