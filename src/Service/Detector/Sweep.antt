-- ===== src/Service/Detector/Sweep.antt =====
-- internal/service/detector.go: `Sweep`, and what it does with one claimed transaction.
use recon_sync.Common.{
  ℕ, ◌+◌, Bool, true, false, Option, none, some, List, [], ◌∷◌, Text, ◌==◌, length, if◌then◌else◌,
}
use recon_sync.Domain.Status.{suspect, status_beq}
use recon_sync.Domain.Errors.{Error, Result, ok, err}
use recon_sync.Domain.Transaction.{Transaction}
use recon_sync.Audit.Chain.{HashedContent}
use recon_sync.Evidence.{Evidence}
use recon_sync.Store.State.{Memory}
use recon_sync.Store.Expiry.{claim_expired}
use recon_sync.Store.Health.{silent_tenants}
use recon_sync.Store.Reversals.{mark_uncertain}
use recon_sync.Webhook.Payload.{
  Envelope, IntegrationEnvelope, reversal_triggered, transaction_suspect,
}
use recon_sync.Service.Detector.Verdict.{
  Detector, Formats, SweepResult, Judged, base_evidence, corroborate, tolerate_race,
  below_confidence_floor,
}
use recon_sync.Service.Detector.Queue.{queue, record_verdict}
use recon_sync.Service.Detector.Alerts.{Endpoints, endpoints_for, alert_on_silence, warn_at_risk}

-- What the loop over the claimed transactions carries.
pub record Progress : Type 0 where
  pub memory : Memory
  pub res : SweepResult
  pub cache : Endpoints

abbrev pub raise_suspect : SweepResult → SweepResult
raise_suspect res = record res { suspect = res.suspect + 1 }

abbrev pub no_result : SweepResult
no_result = record {
  claimed = 0;
  queued = 0;
  suspect = 0;
  no_target = 0;
  silent_tenants = [];
  silence_alerts = 0;
  recovery_alerts = 0;
  at_risk = 0;
  below_confidence_floor = 0;
  settled = 0;
  corroborated = 0;
  uncertain = 0;
}

module _ (digest : HashedContent → Option Text) (formats : Formats)
    (marshal : Envelope → Option Text) (clock at : ℕ) where
  abbrev pub count_queued : SweepResult → ℕ → SweepResult
  count_queued res n =
      if n == 0
      then record res { no_target = res.no_target + 1 }
      else record res { queued = res.queued + n }

  abbrev pub after_queue :
      SweepResult → Endpoints → Memory × ℕ × Option Error → Progress × Option Error
  after_queue res cache (m, n, some e) = (record { memory = m; res = res; cache = cache }, some e)
  after_queue res cache (m, n, none) =
      (record { memory = m; res = count_queued res n; cache = cache }, none)

  -- From the test for a backfilled transaction on.
  unfoldable pub notify : Progress → Transaction → Evidence → Text → Progress × Option Error
  unfolding queue record_verdict
  notify s t ev event =
      if t.is_backfill
      then (s, none)
      else let (cache, eps) = endpoints_for s.memory t.tenant_id s.cache in
        let m = record_verdict digest formats clock at s.memory t event ev in
        after_queue s.res cache (queue marshal clock at m t event eps ev)

  abbrev pub downgraded : SweepResult → SweepResult
  downgraded res = record res {
    below_confidence_floor = res.below_confidence_floor + 1;
    suspect = res.suspect + 1;
  }

  abbrev pub notify_downgraded : Progress → Transaction → Evidence → Progress × Option Error
  notify_downgraded s t ev =
      notify (record s { res = downgraded s.res }) (record t { status = suspect }) ev
        transaction_suspect

  abbrev pub after_downgrade :
      Progress → Transaction → Evidence → Memory × Result Transaction → Progress × Option Error
  after_downgrade s t ev (m, ok t') = notify_downgraded (record s { memory = m }) t ev
  after_downgrade s t ev (m, err e) = elim (tolerate_race e) [
    | some e' ↦ (record s { memory = m }, some e')
    | none ↦ notify_downgraded (record s { memory = m }) t ev
  ]

  -- The choice of the event.
  unfoldable pub advise : Detector → ℕ → Progress → Transaction → Evidence → Progress × Option Error
  unfolding notify below_confidence_floor
  advise d now s t ev =
      if status_beq t.status suspect
      then notify (record s { res = raise_suspect s.res }) t ev transaction_suspect
      else if below_confidence_floor d ev
      then after_downgrade s t ev (mark_uncertain clock s.memory t.tenant_id t.transaction_id now)
      else notify s t ev reversal_triggered

  abbrev pub after_judged : Detector → ℕ → Progress → Judged → Result Bool → Progress × Option Error
  after_judged d now s j (err e) = (s, some e)
  after_judged d now s j (ok true) = (s, none)
  after_judged d now s j (ok false) = advise d now s j.txn j.ev

  unfoldable pub sweep_one : Detector → ℕ → Progress → Transaction → Progress × Option Error
  unfolding advise base_evidence corroborate
  sweep_one d now s t =
      let j = corroborate clock d now s.memory s.res t (base_evidence formats s.memory t) in
      after_judged d now (record s { memory = j.memory; res = j.res }) j j.decided

  unfoldable pub sweep_loop : Detector → ℕ → List Transaction → Progress → Progress × Option Error
  unfolding sweep_one
  sweep_loop d now [] s = (s, none)
  sweep_loop d now (t ∷ ts) s =
      let (s', bad) = sweep_one d now s t in
      elim bad [ some e ↦ (s', some e) | none ↦ sweep_loop d now ts s' ]

  abbrev pub after_sweep_loop :
      Detector → ℕ → Progress × Option Error → Memory × SweepResult × Option Error
  after_sweep_loop d now (s, some e) = (s.memory, s.res, some e)
  after_sweep_loop d now (s, none) = warn_at_risk marshal clock d s.memory now s.res

  unfoldable pub sweep :
      (IntegrationEnvelope → Option Text)
      → Detector
      → ℕ
      → Memory
      → Memory × SweepResult × Option Error
  unfolding sweep_loop alert_on_silence
  sweep marshal_alert d now m =
      let silent = silent_tenants m now d.silence in
      let (m1, res) =
        alert_on_silence digest formats marshal_alert clock d.silence m silent now
          (record no_result { silent_tenants = silent }) in
      let (m2, claimed) = claim_expired m1 now d.batch silent in
      after_sweep_loop d now (
        sweep_loop d now claimed
          (record { memory = m2; res = record res { claimed = length claimed }; cache = [] }))
