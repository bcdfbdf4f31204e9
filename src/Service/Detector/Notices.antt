-- ===== src/Service/Detector/Notices.antt =====
-- What the alerts of a sweep add to the queue.
use recon_sync.Common.{
  ℕ, ◌+◌, false, not, ◌≡◌, ◌≢◌, refl, ◌∙◌, inl, inr, Option, List, [], ◌∷◌, Text, Bool-cases,
  Option-cases, arith, lookup, text_eq, pair_eq, pos, pos_part, ltℤ, text_beq_iff, text_beq,
}
use recon_sync.Domain.Transaction.{Transaction}
use recon_sync.Audit.Chain.{HashedContent}
use recon_sync.Store.State.{Key, Memory, DeliveryRecord}
use recon_sync.Store.Health.{
  SilenceEpisode, SilenceParams, is_disabled, open_one, open_episodes, sync_silence_episodes,
}
use recon_sync.Store.Endpoints.{list_endpoints}
use recon_sync.Store.Expiry.{claim_loop, claim_expired, warn_loop, claim_sla_at_risk}
use recon_sync.Webhook.Payload.{
  Envelope, IntegrationEnvelope, silence_envelope, recovery_envelope, at_risk_envelope,
  reversal_triggered, sla_at_risk_event, integration_silent, integration_recovered,
}
use recon_sync.Service.Detector.Verdict.{Detector, Formats, SweepResult}
use recon_sync.Service.Detector.Queue.{queue_loop}
use recon_sync.Service.Detector.Alerts.{
  Endpoints, endpoints_for, queue_integration_alert, record_silence, opened_loop, recovered_loop,
  alert_on_silence, at_risk_loop, warn_at_risk, count_alert,
}
use recon_sync.Service.Detector.Frames.{
  Only, Only-refl, Only-trans, Only-same, queue_loop-Only, alert_loop-Only, append_audit-Only,
}

claim_loop-deliveries :
    (due : List Key) (now : ℕ) (m : Memory) → (claim_loop now m due).0.deliveries ≡ m.deliveries
unfolding claim_loop
claim_loop-deliveries [] now m = refl
claim_loop-deliveries (k ∷ due) now m = elim (Option-cases (lookup k m.by_tenant)) [
  | inl e ↦ rw (e, claim_loop) (claim_loop-deliveries due now m)
  | inr (t, e) ↦ rw (e, claim_loop) (claim_loop-deliveries due now _)
]

pub claim_expired-deliveries :
    (m : Memory) (now limit : ℕ) (skip : List Text)
    → (claim_expired m now limit skip).0.deliveries ≡ m.deliveries
unfolding claim_expired
claim_expired-deliveries m now limit skip = claim_loop-deliveries _ now m

warn_loop-deliveries :
    (due : List Key) (now : ℕ) (m : Memory) → (warn_loop now m due).0.deliveries ≡ m.deliveries
unfolding warn_loop
warn_loop-deliveries [] now m = refl
warn_loop-deliveries (k ∷ due) now m = elim (Option-cases (lookup k m.by_tenant)) [
  | inl e ↦ rw (e, warn_loop) (warn_loop-deliveries due now m)
  | inr (t, e) ↦ rw (e, warn_loop) (warn_loop-deliveries due now _)
]

claim_sla_at_risk-deliveries :
    (m : Memory) (now deadline ahead limit : ℕ)
    → (claim_sla_at_risk m now deadline ahead limit).0.deliveries ≡ m.deliveries
unfolding claim_sla_at_risk
claim_sla_at_risk-deliveries m now deadline ahead limit = warn_loop-deliveries _ now m

open_one-deliveries :
    (m : Memory) (now : ℕ) (t : Text) (opened : List SilenceEpisode)
    → (open_one m now t opened).0.deliveries ≡ m.deliveries
unfolding open_one
open_one-deliveries m now t opened = ground arith

open_episodes-deliveries :
    (silent : List Text) (m : Memory) (now : ℕ) (opened : List SilenceEpisode)
    → (open_episodes m now silent opened).0.deliveries ≡ m.deliveries
unfolding open_episodes
open_episodes-deliveries [] m now opened = refl
open_episodes-deliveries (t ∷ silent) m now opened =
    open_episodes-deliveries silent (open_one m now t opened).0 now (open_one m now t opened).1
    ∙ open_one-deliveries m now t opened

sync_silence_episodes-deliveries :
    (m : Memory) (silent : List Text) (now : ℕ)
    → (sync_silence_episodes m silent now).0.deliveries ≡ m.deliveries
unfolding sync_silence_episodes
sync_silence_episodes-deliveries m silent now = open_episodes-deliveries silent m now []

-- Two texts that the test tells apart.
pub texts_differ : (a b : Text) → text_beq a b ≡ false → a ≢ b
texts_differ a b h e = ground (arith, text_beq_iff a b)

-- `P` says nothing of a delivery that is no advice of a reversal.
module _ (P : DeliveryRecord → Type 0)
    (other : (x : DeliveryRecord) → x.event_type ≢ reversal_triggered → P x) where
  module _ (digest : HashedContent → Option Text) (formats : Formats)
      (marshal_alert : IntegrationEnvelope → Option Text) where
    alert-Only :
        (clock : ℕ) (m : Memory) (tenant : Text) (env : IntegrationEnvelope)
        → env.event ≢ reversal_triggered
        → Only P m (queue_integration_alert marshal_alert clock m tenant env).0
    unfolding queue_integration_alert
    alert-Only clock m tenant env ne = elim (Option-cases (marshal_alert env)) [
      | inl e ↦ rw (e, queue_integration_alert) (Only-refl P m)
      | inr (payload, e) ↦
          rw (e, queue_integration_alert)
            (alert_loop-Only P clock tenant env.event payload (list_endpoints m tenant) m false
              (λ ep k. other _ ne))
    ]

    opened_loop-Only :
        (eps : List SilenceEpisode) (clock : ℕ) (p : SilenceParams) (now : ℕ) (m : Memory) (n : ℕ)
        → Only P m (opened_loop digest formats marshal_alert clock p now eps m n).0
    unfolding opened_loop record_silence silence_envelope
    opened_loop-Only [] clock p now m n = Only-refl P m
    opened_loop-Only (ep ∷ eps) clock p now m n =
        let q =
          queue_integration_alert marshal_alert clock m ep.tenant_id
            (silence_envelope ep.tenant_id ep.silent_since now) in
        let m' = record_silence digest formats clock p q.0 integration_silent ep now in
        let n' = count_alert digest formats marshal_alert q.1 n in
        Only-trans P m q.0 (opened_loop digest formats marshal_alert clock p now eps m' n').0
          (alert-Only clock m ep.tenant_id _ (texts_differ _ _ refl))
          (Only-trans P q.0 m' (opened_loop digest formats marshal_alert clock p now eps m' n').0
            (append_audit-Only P digest clock q.0 ep.tenant_id _)
            (opened_loop-Only eps clock p now m' n'))

    recovered_loop-Only :
        (eps : List SilenceEpisode) (clock : ℕ) (p : SilenceParams) (now : ℕ) (m : Memory) (n : ℕ)
        → Only P m (recovered_loop digest formats marshal_alert clock p now eps m n).0
    unfolding recovered_loop record_silence recovery_envelope
    recovered_loop-Only [] clock p now m n = Only-refl P m
    recovered_loop-Only (ep ∷ eps) clock p now m n =
        let q =
          queue_integration_alert marshal_alert clock m ep.tenant_id
            (recovery_envelope ep.tenant_id ep.silent_since now) in
        let m' = record_silence digest formats clock p q.0 integration_recovered ep now in
        let n' = count_alert digest formats marshal_alert q.1 n in
        Only-trans P m q.0 (recovered_loop digest formats marshal_alert clock p now eps m' n').0
          (alert-Only clock m ep.tenant_id _ (texts_differ _ _ refl))
          (Only-trans P q.0 m' (recovered_loop digest formats marshal_alert clock p now eps m' n').0
            (append_audit-Only P digest clock q.0 ep.tenant_id _)
            (recovered_loop-Only eps clock p now m' n'))

    pub alert_on_silence-Only :
        (clock : ℕ) (p : SilenceParams) (m : Memory) (silent : List Text) (now : ℕ)
        (res : SweepResult)
        → Only P m (alert_on_silence digest formats marshal_alert clock p m silent now res).0
    unfolding alert_on_silence
    alert_on_silence-Only clock p m silent now res = elim (Bool-cases (is_disabled p)) [
      | inl e ↦ rw (e, alert_on_silence) (Only-refl P m)
      | inr e ↦
          let s = sync_silence_episodes m silent now in
          let o =
            opened_loop digest formats marshal_alert clock p now s.1.opened s.0
              res.silence_alerts in
          let r =
            recovered_loop digest formats marshal_alert clock p now s.1.recovered o.0
              res.recovery_alerts in
          rw (e, alert_on_silence)
            (Only-trans P m s.0 r.0
              (Only-same P m s.0 (sync_silence_episodes-deliveries m silent now))
              (Only-trans P s.0 o.0 r.0
                (opened_loop-Only s.1.opened clock p now s.0 res.silence_alerts)
                (recovered_loop-Only s.1.recovered clock p now o.0 res.recovery_alerts)))
    ]

  module _ (marshal : Envelope → Option Text) where
    at_risk_loop-Only :
        (ts : List Transaction) (clock deadline now : ℕ) (m : Memory) (res : SweepResult)
        (cache : Endpoints)
        → Only P m (at_risk_loop marshal clock deadline now ts m res cache).0
    unfolding at_risk_loop
    at_risk_loop-Only [] clock deadline now m res cache = Only-refl P m
    at_risk_loop-Only (t ∷ ts) clock deadline now m res cache =
        let c = endpoints_for m t.tenant_id cache in
        elim (Option-cases (marshal (at_risk_envelope t (t.debit_at + deadline) now))) [
          | inl e ↦ rw (e, at_risk_loop) (Only-refl P m)
          | inr (payload, e) ↦
              let q =
                queue_loop clock t.tenant_id t.transaction_id sla_at_risk_event payload c.1 m 0 in
              let here : Only P m q.0 =
                queue_loop-Only P clock t.tenant_id t.transaction_id sla_at_risk_event payload c.1 m
                  0 (λ ep k. other _ (texts_differ _ _ refl)) in
              elim (Option-cases q.2) [
                | inr (bad, f) ↦ rw (e, at_risk_loop, f) here
                | inl f ↦
                    let res' : SweepResult = record res { at_risk = res.at_risk + 1 } in
                    rw (e, at_risk_loop, f)
                      (Only-trans P m q.0
                        (at_risk_loop marshal clock deadline now ts q.0 res' c.0).0 here
                        (at_risk_loop-Only ts clock deadline now q.0 res' c.0))
              ]
        ]

    pub warn_at_risk-Only :
        (clock : ℕ) (d : Detector) (m : Memory) (now : ℕ) (res : SweepResult)
        → Only P m (warn_at_risk marshal clock d m now res).0
    unfolding warn_at_risk
    warn_at_risk-Only clock d m now res =
        let c = claim_sla_at_risk m now d.deadline (pos_part d.sla_warn_ahead) d.batch in
        let r = at_risk_loop marshal clock d.deadline now c.1 c.0 res [] in
        elim (Bool-cases (not (ltℤ (pos 0) d.sla_warn_ahead))) [
          | inl e ↦ rw (e, warn_at_risk) (Only-refl P m)
          | inr e ↦
              rw (e, warn_at_risk)
                (Only-trans P m c.0 r.0
                  (Only-same P m c.0 (
                    claim_sla_at_risk-deliveries m now d.deadline (pos_part d.sla_warn_ahead)
                      d.batch))
                  (at_risk_loop-Only c.1 clock d.deadline now c.0 res []))
        ]
