-- ===== src/Service/Detector/Reversals.antt =====
-- Which reversals a sweep advises.
use recon_sync.Common.{
  ℕ, false, ◌&&◌, ◌≡◌, refl, sym, subst, inl, inr, Option, none, some, List, Bool-cases,
  Option-cases, Text, text_beq, ltb, if_cases, if◌then◌else◌,
}
use recon_sync.Domain.Status.{suspect, reversal_pending, status_beq}
use recon_sync.Domain.Errors.{
  Error, validation, sensitive, unknown_credit_status, empty_event, not_found, tenant_mismatch,
  illegal, failure, Result, ok, err,
}
use recon_sync.Domain.Transaction.{Transaction}
use recon_sync.Audit.Chain.{HashedContent}
use recon_sync.Evidence.{Evidence}
use recon_sync.Store.State.{Memory, DeliveryRecord, WebhookEndpoint}
use recon_sync.Store.Reversals.{mark_uncertain, mark_reversal_pending}
use recon_sync.Store.Webhooks.{queued}
use recon_sync.Webhook.Payload.{Envelope, envelope_for, reversal_triggered, transaction_suspect}
use recon_sync.Service.Detector.Verdict.{
  Detector, Formats, SweepResult, tolerate_race, below_confidence_floor,
}
use recon_sync.Service.Detector.Queue.{
  pending_for, queue_loop, after_pending, after_loop, queue, record_verdict,
}
use recon_sync.Service.Detector.Alerts.{Endpoints, endpoints_for}
use recon_sync.Service.Detector.Sweep.{
  Progress, notify, advise, after_queue, after_downgrade, notify_downgraded, downgraded,
  raise_suspect,
}
use recon_sync.Service.Detector.Frames.{
  Only, Only-refl, Only-trans, queue_loop-Only, append_audit-Only, mark_reversal-Only,
}

pub after_pending-memory : (n : ℕ) (p : Memory × Result Transaction) → (after_pending n p).0 ≡ p.0
after_pending-memory n (m, ok t) = refl
after_pending-memory n (m, err (illegal e)) = refl
after_pending-memory n (m, err (validation e)) = refl
after_pending-memory n (m, err (sensitive e)) = refl
after_pending-memory n (m, err (unknown_credit_status e)) = refl
after_pending-memory n (m, err (failure e)) = refl
after_pending-memory n (m, err empty_event) = refl
after_pending-memory n (m, err not_found) = refl
after_pending-memory n (m, err tenant_mismatch) = refl

module _ (P : DeliveryRecord → Type 0) (clock at : ℕ) (t : Transaction) (event : Text) where
  -- What is queued for the transaction and the event is as `P` says.
  abbrev pub Fits : Type 0
  Fits =
      (ep : WebhookEndpoint) (payload : Text) (k : ℕ)
      → P (queued clock k t.tenant_id (pending_for t.tenant_id t.transaction_id event payload ep))

  after_loop-Only :
      (m : Memory) (p : Memory × ℕ × Option Error)
      → Only P m p.0
      → Only P m (after_loop clock at t event p).0
  unfolding mark_reversal_pending
  after_loop-Only m (m', n, some e) o = o
  after_loop-Only m (m', n, none) o =
      let r = mark_reversal_pending clock m' t.tenant_id t.transaction_id at in
      let kept : Only P m r.0 =
        Only-trans P m m' r.0 o
          (mark_reversal-Only P clock m' t.tenant_id t.transaction_id reversal_pending at) in
      elim (Bool-cases (ltb 0 n && text_beq event reversal_triggered)) [
        | inr e ↦ rw e o
        | inl e ↦ rw e (subst (Only P m) (sym (after_pending-memory n r)) kept)
      ]

  queue-Only :
      (marshal : Envelope → Option Text) (m : Memory) (eps : List WebhookEndpoint) (ev : Evidence)
      → Fits
      → Only P m (queue marshal clock at m t event eps ev).0
  unfolding queue
  queue-Only marshal m eps ev f = elim (Option-cases (marshal (envelope_for event t at ev))) [
    | inl e ↦ rw (e, queue) (Only-refl P m)
    | inr (payload, e) ↦
        rw (e, queue)
          (after_loop-Only m (queue_loop clock t.tenant_id t.transaction_id event payload eps m 0) (
            queue_loop-Only P clock t.tenant_id t.transaction_id event payload eps m 0
              (λ ep k. f ep payload k)))
  ]

pub after_queue-memory :
    (digest : HashedContent → Option Text) (formats : Formats) (marshal : Envelope → Option Text)
    (clock at : ℕ) (res : SweepResult) (cache : Endpoints) (p : Memory × ℕ × Option Error)
    → (after_queue digest formats marshal clock at res cache p).0.memory ≡ p.0
after_queue-memory digest formats marshal clock at res cache (m, n, some e) = refl
after_queue-memory digest formats marshal clock at res cache (m, n, none) = refl

module _ (digest : HashedContent → Option Text) (formats : Formats)
    (marshal : Envelope → Option Text) (clock at : ℕ) (P : DeliveryRecord → Type 0) where
  notify-Only :
      (s : Progress) (t : Transaction) (ev : Evidence) (event : Text)
      → (t.is_backfill ≡ false → Fits P clock at t event)
      → Only P s.memory (notify digest formats marshal clock at s t ev event).0.memory
  unfolding notify record_verdict
  notify-Only s t ev event f =
      let cache = (endpoints_for s.memory t.tenant_id s.cache).0 in
      let eps = (endpoints_for s.memory t.tenant_id s.cache).1 in
      let m = record_verdict digest formats clock at s.memory t event ev in
      let q = queue marshal clock at m t event eps ev in
      if_cases (λ (r : Progress × Option Error). Only P s.memory r.0.memory) t.is_backfill (s, none)
        (after_queue digest formats marshal clock at s.res cache q) (λ e. Only-refl P s.memory)
        (λ e.
          subst (Only P s.memory)
            (sym (after_queue-memory digest formats marshal clock at s.res cache q))
            (Only-trans P s.memory m q.0 (append_audit-Only P digest clock s.memory t.tenant_id _)
              (queue-Only P clock at t event marshal m eps ev (f e))))

  notify_downgraded-Only :
      (s : Progress) (m : Memory) (t : Transaction) (ev : Evidence)
      → Only P s.memory m
      → Fits P clock at t transaction_suspect
      → Only P s.memory
          (notify_downgraded digest formats marshal clock at
            (record s { memory = m })
            t
            ev).0.memory
  notify_downgraded-Only s m t ev o f =
      let s' : Progress = record s {
        memory = m;
        res = downgraded digest formats marshal clock at s.res;
      } in
      let t' : Transaction = record t { status = suspect } in
      Only-trans P s.memory m
        (notify digest formats marshal clock at s' t' ev transaction_suspect).0.memory o
        (notify-Only s' t' ev transaction_suspect (λ b. f))

  after_downgrade-Only :
      (s : Progress) (t : Transaction) (ev : Evidence) (p : Memory × Result Transaction)
      → Only P s.memory p.0
      → Fits P clock at t transaction_suspect
      → Only P s.memory (after_downgrade digest formats marshal clock at s t ev p).0.memory
  after_downgrade-Only s t ev (m, ok x) o f = notify_downgraded-Only s m t ev o f
  after_downgrade-Only s t ev (m, err x) o f = elim (Option-cases (tolerate_race x)) [
    | inl e ↦ rw (e, after_downgrade) (notify_downgraded-Only s m t ev o f)
    | inr (y, e) ↦ rw (e, after_downgrade) o
  ]

  pub advise-Only :
      (d : Detector) (now : ℕ) (s : Progress) (t : Transaction) (ev : Evidence)
      → Fits P clock at t transaction_suspect
      → (status_beq t.status suspect ≡ false
          → below_confidence_floor d ev ≡ false
          → t.is_backfill ≡ false
          → Fits P clock at t reversal_triggered)
      → Only P s.memory (advise digest formats marshal clock at d now s t ev).0.memory
  unfolding advise mark_uncertain
  advise-Only d now s t ev f g =
      let Keeps = λ (r : Progress × Option Error). Only P s.memory r.0.memory in
      let marked = mark_uncertain clock s.memory t.tenant_id t.transaction_id now in
      let down = after_downgrade digest formats marshal clock at s t ev marked in
      let go = notify digest formats marshal clock at s t ev reversal_triggered in
      if_cases Keeps (status_beq t.status suspect)
        (notify digest formats marshal clock at (record s { res = raise_suspect s.res }) t ev
          transaction_suspect)
        (if below_confidence_floor d ev then down else go)
        (λ e.
          notify-Only (record s { res = raise_suspect s.res }) t ev transaction_suspect (λ b. f))
        (λ e.
          if_cases Keeps (below_confidence_floor d ev) down go
            (λ b.
              after_downgrade-Only s t ev marked
                (mark_reversal-Only P clock s.memory t.tenant_id t.transaction_id suspect now) f)
            (λ b. notify-Only s t ev reversal_triggered (g e b)))
