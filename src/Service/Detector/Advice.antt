-- ===== src/Service/Detector/Advice.antt =====
-- A sweep advises a reversal only for what it claimed, and only on enough evidence.
use recon_sync.Common.{
  ℕ, ◌≤◌, Bool, true, false, ◌≡◌, ◌≢◌, ◌⊎◌, refl, sym, ◌∙◌, inl, inr, Option, none, some, List, [],
  ◌∷◌, Option-cases, arith, Text, length, All,
}
use recon_sync.Domain.Status.{suspect, status_beq}
use recon_sync.Domain.Errors.{Error, Result, ok, err}
use recon_sync.Domain.Transaction.{Transaction}
use recon_sync.Audit.Chain.{HashedContent}
use recon_sync.Evidence.{Evidence, confidence}
use recon_sync.Provider.{Registry, conclusive, query}
use recon_sync.Store.State.{Memory, DeliveryRecord}
use recon_sync.Store.Expiry.{claim_expired}
use recon_sync.Store.Health.{silent_tenants}
use recon_sync.Webhook.Payload.{Envelope, IntegrationEnvelope, reversal_triggered}
use recon_sync.Service.Detector.Verdict.{
  Detector, Formats, SweepResult, Judged, base_evidence, corroborate, ref_of,
  below_confidence_floor,
}
use recon_sync.Service.Detector.Alerts.{alert_on_silence, warn_at_risk}
use recon_sync.Service.Detector.Sweep.{
  Progress, advise, after_judged, sweep_one, sweep_loop, after_sweep_loop, sweep, no_result,
}
use recon_sync.Service.Detector.Frames.{Only, Only-refl, Only-trans, Only-same}
use recon_sync.Service.Detector.Rail.{corroborate-Kept, corroborate-Weighed}
use recon_sync.Service.Detector.Reversals.{advise-Only}
use recon_sync.Service.Detector.Notices.{
  texts_differ, claim_expired-deliveries, alert_on_silence-Only, warn_at_risk-Only,
}

-- A reversal may be advised: the claimed transaction is not suspect and not backfilled, and the
-- floor is one that silence reaches, or the rail gave a conclusive answer.
abbrev pub Advised : Detector → ℕ → Transaction → Type 0
Advised d clock t =
    (status_beq t.status suspect ≡ false)
    × (t.is_backfill ≡ false)
    × ((d.min_confidence ≤ 70)
        ⊎ ((r : Registry) × (d.providers ≡ some r)
            × (conclusive (query clock r (ref_of t)).outcome ≡ true)))

-- The delivery concerns the transaction, and advises a reversal only if one may be advised.
abbrev pub Concerns : Detector → ℕ → Transaction → DeliveryRecord → Type 0
Concerns d clock t x =
    (x.tenant_id ≡ t.tenant_id)
    × (x.transaction_id ≡ t.transaction_id)
    × (x.event_type ≡ reversal_triggered → Advised d clock t)

above_floor :
    (d : Detector) (ev : Evidence)
    → below_confidence_floor d ev ≡ false
    → confidence ev ≤ 70
    → d.min_confidence ≤ 70
unfolding below_confidence_floor
above_floor d ev h le = ground arith

module _ (digest : HashedContent → Option Text) (formats : Formats)
    (marshal : Envelope → Option Text) (clock at : ℕ) (d : Detector) (now : ℕ) where
  after_judged-Only :
      (P : DeliveryRecord → Type 0) (m : Memory) (s : Progress) (j : Judged) (r : Result Bool)
      → Only P m s.memory
      → Only P s.memory (advise digest formats marshal clock at d now s j.txn j.ev).0.memory
      → Only P m (after_judged digest formats marshal clock at d now s j r).0.memory
  after_judged-Only P m s j (err e) o a = o
  after_judged-Only P m s j (ok true) o a = o
  after_judged-Only P m s j (ok false) o a =
      Only-trans P m s.memory (advise digest formats marshal clock at d now s j.txn j.ev).0.memory o
        a

  sweep_one-Only :
      (s : Progress) (t : Transaction)
      → Only
          (Concerns d clock t)
          s.memory
          (sweep_one digest formats marshal clock at d now s t).0.memory
  unfolding sweep_one
  sweep_one-Only s t =
      let P = Concerns d clock t in
      let ev = base_evidence formats s.memory t in
      let j = corroborate clock d now s.memory s.res t ev in
      let kept = corroborate-Kept clock d now s.memory s.res t ev in
      let weighed = corroborate-Weighed clock d now s.memory s.res t formats in
      let s' : Progress = record s { memory = j.memory; res = j.res } in
      after_judged-Only P s.memory s' j j.decided (Only-same P s.memory j.memory kept.0) (
        advise-Only digest formats marshal clock at P d now s' j.txn j.ev
          (λ ep payload k. (kept.1, kept.2, λ e. absurd (texts_differ _ _ refl e)))
          (λ status above backfill ep payload k. (
            kept.1,
            kept.2,
            λ e. (
              kept.4 status,
              sym kept.3 ∙ backfill,
              elim weighed [
                | inl thin ↦ inl (above_floor d j.ev above thin)
                | inr asked ↦ inr asked
              ],
            ),
          )))

  sweep_loop-Only :
      (P : DeliveryRecord → Type 0) (ts : List Transaction) (s : Progress)
      → All (λ (t : Transaction). (x : DeliveryRecord) → Concerns d clock t x → P x) ts
      → Only P s.memory (sweep_loop digest formats marshal clock at d now ts s).0.memory
  unfolding sweep_loop
  sweep_loop-Only P [] s h = Only-refl P s.memory
  sweep_loop-Only P (t ∷ ts) s h =
      let r = sweep_one digest formats marshal clock at d now s t in
      let here : Only P s.memory r.0.memory = λ id x e. elim (sweep_one-Only s t id x e) [
        | inl old ↦ inl old
        | inr new ↦ inr (h.0 x new)
      ] in
      elim (Option-cases r.1) [
        | inr (bad, e) ↦ rw (e, sweep_loop) here
        | inl e ↦
            rw (e, sweep_loop)
              (Only-trans P s.memory r.0.memory
                (sweep_loop digest formats marshal clock at d now ts r.0).0.memory here
                (sweep_loop-Only P ts r.0 h.1))
      ]

  -- One of the transactions is the delivery's, and its reversal may be advised.
  abbrev pub AdvisedIn : List Transaction → DeliveryRecord → Type 0
  AdvisedIn [] x = ⊥
  AdvisedIn (t ∷ ts) x =
      ((x.tenant_id ≡ t.tenant_id) × (x.transaction_id ≡ t.transaction_id) × Advised d clock t)
      ⊎ AdvisedIn ts x

  -- What a sweep may leave in the queue that was not there.
  abbrev pub Justified : List Transaction → DeliveryRecord → Type 0
  Justified ts x = x.event_type ≡ reversal_triggered → AdvisedIn ts x

  concerned :
      (ts whole : List Transaction)
      → ((x : DeliveryRecord) → AdvisedIn ts x → AdvisedIn whole x)
      → All
          (λ (t : Transaction). (x : DeliveryRecord) → Concerns d clock t x → Justified whole x)
          ts
  concerned [] whole sub = tt
  concerned (t ∷ ts) whole sub =
      (λ x c e. sub x (inl (c.0, c.1, c.2 e)), concerned ts whole (λ x a. sub x (inr a)))

  after_sweep_loop-Only :
      (P : DeliveryRecord → Type 0)
      → ((x : DeliveryRecord) → x.event_type ≢ reversal_triggered → P x)
      → (m : Memory) (r : Progress × Option Error) → Only P m r.0.memory
      → Only P m (after_sweep_loop digest formats marshal clock at d now r).0
  after_sweep_loop-Only P other m (s, some e) o = o
  after_sweep_loop-Only P other m (s, none) o =
      Only-trans P m s.memory (warn_at_risk marshal clock d s.memory now s.res).0 o
        (warn_at_risk-Only P other marshal clock d s.memory now s.res)

  module _ (marshal_alert : IntegrationEnvelope → Option Text) where
    -- The transactions that the sweep claims.
    abbrev pub claims : Memory → List Transaction
    claims m =
        let silent = silent_tenants m now d.silence in
        let res : SweepResult = record no_result { silent_tenants = silent } in
        (claim_expired
          (alert_on_silence digest formats marshal_alert clock d.silence m silent now res).0 now
          d.batch silent).1

    -- Every delivery that is in the queue after a sweep was there before, is no advice of a
    -- reversal, or advises the reversal of a transaction that the sweep claimed: one that was not
    -- claimed as suspect and is not backfilled, and for which the rail gave a conclusive answer,
    -- unless the floor is at most 0.70, which silence alone reaches.
    pub sweep-Justified :
        (m : Memory)
        → Only
            (Justified (claims m))
            m
            (sweep digest formats marshal clock at marshal_alert d now m).0
    unfolding sweep
    sweep-Justified m =
        let P = Justified (claims m) in
        let other : (x : DeliveryRecord) → x.event_type ≢ reversal_triggered → P x =
          λ x ne e. absurd (ne e) in
        let silent = silent_tenants m now d.silence in
        let res : SweepResult = record no_result { silent_tenants = silent } in
        let a = alert_on_silence digest formats marshal_alert clock d.silence m silent now res in
        let c = claim_expired a.0 now d.batch silent in
        let s : Progress = record {
          memory = c.0;
          res = record (a.1) { claimed = length c.1 };
          cache = [];
        } in
        let r = sweep_loop digest formats marshal clock at d now c.1 s in
        after_sweep_loop-Only P other m r (
          Only-trans P m a.0 r.0.memory
            (alert_on_silence-Only P other digest formats marshal_alert clock d.silence m silent now
              res)
            (Only-trans P a.0 c.0 r.0.memory
              (Only-same P a.0 c.0 (claim_expired-deliveries a.0 now d.batch silent))
              (sweep_loop-Only P c.1 s (concerned c.1 c.1 (λ x w. w)))))
