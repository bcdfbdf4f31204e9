-- ===== src/Service/Detector/Race.antt =====
-- A sweep that loses a race for a transaction which the rail reports as settled.
use recon_sync.Common.{
  ℕ, true, false, ◌≡◌, sym, subst, Option, some, Text, arith, lookup, pair_eq, text_eq,
}
use recon_sync.Domain.Status.{
  completed, suspect, orphaned, status_beq, transition, InvalidTransitionError,
}
use recon_sync.Domain.Errors.{Error, illegal, ok, err}
use recon_sync.Domain.Transaction.{Transaction}
use recon_sync.Audit.Chain.{HashedContent}
use recon_sync.Evidence.{Evidence}
use recon_sync.Provider.{Outcome, Registry, query}
use recon_sync.Store.State.{Memory, WebhookEndpoint}
use recon_sync.Store.Reversals.{mark_reversal, mark_settled}
use recon_sync.Webhook.Payload.{Envelope, envelope_for, reversal_triggered}
use recon_sync.Service.Detector.Verdict.{
  Detector, Formats, SweepResult, base_evidence, corroborate, ask_rail, judge_outcome, ref_of,
  below_confidence_floor,
}
use recon_sync.Service.Detector.Queue.{takes}
use recon_sync.Service.Detector.Alerts.{endpoints_for}
use recon_sync.Service.Detector.Offers.{Listed, Offers, Holds, notify-Offers}
use recon_sync.Service.Detector.Sweep.{Progress, notify, advise, sweep_one}

module _ (digest : HashedContent → Option Text) (formats : Formats)
    (marshal : Envelope → Option Text) (clock at : ℕ) (d : Detector) (now : ℕ) where
  settle_lost :
      (m : Memory) (t u : Transaction) {e : InvalidTransitionError}
      → lookup (t.tenant_id, t.transaction_id) m.by_tenant ≡ some u
      → transition u.status completed ≡ some e
      → mark_settled clock m t.tenant_id t.transaction_id now ≡ (m, err (illegal e))
  unfolding mark_settled mark_reversal
  settle_lost m t u l w = rw (l, mark_settled, mark_reversal, w)

  undecided :
      (m : Memory) (res : SweepResult) (t u : Transaction) (ev : Evidence) {r : Registry}
      {e : InvalidTransitionError}
      → t.status ≡ orphaned
      → d.providers ≡ some r
      → (query clock r (ref_of t)).outcome ≡ Outcome.settled
      → lookup (t.tenant_id, t.transaction_id) m.by_tenant ≡ some u
      → transition u.status completed ≡ some e
      → corroborate clock d now m res t ev
        ≡ record { memory = m; res = res; txn = t; ev = ev; decided = ok false }
  unfolding corroborate ask_rail judge_outcome
  undecided m res t u ev o p q l w =
      let here : status_beq t.status orphaned ≡ true = ground arith in
      rw (p, corroborate, here, q, judge_outcome, settle_lost m t u l w)

  -- The sweep goes on as if the rail had not answered.
  sweep_one-notify :
      (s : Progress) (t u : Transaction) {r : Registry} {e : InvalidTransitionError}
      → t.status ≡ orphaned
      → d.providers ≡ some r
      → (query clock r (ref_of t)).outcome ≡ Outcome.settled
      → lookup (t.tenant_id, t.transaction_id) s.memory.by_tenant ≡ some u
      → transition u.status completed ≡ some e
      → below_confidence_floor d (base_evidence formats s.memory t) ≡ false
      → sweep_one digest formats marshal clock at d now s t
        ≡ notify digest formats marshal clock at s t
            (base_evidence formats s.memory t)
            reversal_triggered
  unfolding sweep_one corroborate ask_rail judge_outcome mark_settled mark_reversal advise
  sweep_one-notify s t u {r} {e} o p q l w f =
      let ev = base_evidence formats s.memory t in
      let clear : status_beq t.status suspect ≡ false = ground arith in
      rw (undecided s.memory s.res t u ev o p q l w, sweep_one, clear, advise, f)

  -- If the rail reports an orphan as settled, but the stored transaction has moved on so that it
  -- cannot become completed any more, silence alone reaches the floor, the transaction was not
  -- backfilled and the payload can be encoded, then the sweep of the transaction leaves, for each
  -- endpoint of the tenant that takes `reversal.triggered`, a pending delivery in the queue that
  -- advises it to reverse the transaction.
  pub sweep_one-settled :
      (s : Progress) (t u : Transaction) (ep : WebhookEndpoint) {r : Registry}
      {e : InvalidTransitionError} {payload : Text}
      → t.status ≡ orphaned
      → d.providers ≡ some r
      → (query clock r (ref_of t)).outcome ≡ Outcome.settled
      → lookup (t.tenant_id, t.transaction_id) s.memory.by_tenant ≡ some u
      → transition u.status completed ≡ some e
      → below_confidence_floor d (base_evidence formats s.memory t) ≡ false
      → t.is_backfill ≡ false
      → marshal (envelope_for reversal_triggered t at (base_evidence formats s.memory t))
        ≡ some payload
      → Listed ep (endpoints_for s.memory t.tenant_id s.cache).1
      → takes ep reversal_triggered ≡ true
      → Holds
          (Offers t.tenant_id t.transaction_id reversal_triggered ep.id)
          (sweep_one digest formats marshal clock at d now s t).0.memory
  sweep_one-settled s t u ep o p q l w f fresh encoded listed takes_it =
      subst
        (λ (x : Progress × Option Error).
          Holds (Offers t.tenant_id t.transaction_id reversal_triggered ep.id) x.0.memory)
        (sym (sweep_one-notify s t u o p q l w f))
        (notify-Offers digest formats marshal clock at s t (base_evidence formats s.memory t)
          reversal_triggered ep fresh encoded listed takes_it)
