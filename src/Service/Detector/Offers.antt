-- ===== src/Service/Detector/Offers.antt =====
-- Whom an advice reaches: each endpoint that takes the event has a delivery in the queue.
use recon_sync.Common.{
  ℕ, ◌+◌, ◌≤◌, true, false, ◌&&◌, ltb, ◌≡◌, ◌⊎◌, refl, sym, ap, subst, ◌∙◌, inl, inr, Option, none,
  some, List, [], ◌∷◌, Text, lookup, nat_eq, text_beq, text_beq_iff, lookup-insert,
  lookup-insert_self, ◌==◌, arith, Bool-cases, if_cases,
}
use recon_sync.Domain.Errors.{Error, ok}
use recon_sync.Domain.Status.{reversal_pending}
use recon_sync.Domain.Transaction.{Transaction}
use recon_sync.Audit.Chain.{HashedContent}
use recon_sync.Evidence.{Evidence}
use recon_sync.Store.State.{Memory, DeliveryRecord, WebhookEndpoint}
use recon_sync.Store.Webhooks.{PendingDelivery, queued, enqueue_delivery}
use recon_sync.Store.Reversals.{mark_reversal_pending}
use recon_sync.Webhook.Payload.{Envelope, envelope_for, reversal_triggered}
use recon_sync.Webhook.Decide.{pending}
use recon_sync.Service.Detector.Verdict.{Formats}
use recon_sync.Service.Detector.Queue.{
  takes, pending_for, queue_loop, after_loop, queue, record_verdict,
}
use recon_sync.Service.Detector.Alerts.{endpoints_for}
use recon_sync.Service.Detector.Sweep.{Progress, after_queue, notify}
use recon_sync.Service.Detector.Frames.{mark_reversal-deliveries}
use recon_sync.Service.Detector.Reversals.{after_pending-memory, after_queue-memory}

-- The endpoint is one of the list.
abbrev pub Listed : WebhookEndpoint → List WebhookEndpoint → Type 0
Listed ep [] = ⊥
Listed ep (x ∷ eps) = (x ≡ ep) ⊎ Listed ep eps

-- A pending delivery of the event for the transaction to the endpoint.
abbrev pub Offers : Text → Text → Text → Text → DeliveryRecord → Type 0
Offers tenant id event endpoint d =
    (d.tenant_id ≡ tenant)
    × (d.transaction_id ≡ id)
    × (d.event_type ≡ event)
    × (d.endpoint_id ≡ endpoint)
    × (d.status ≡ pending)

-- The store holds a delivery that is as `P` says.
abbrev pub Holds : (DeliveryRecord → Type 0) → Memory → Type 0
Holds P m = (id : ℕ) × (d : DeliveryRecord) × (lookup id m.deliveries ≡ some d) × P d

module _ (P : DeliveryRecord → Type 0) (clock : ℕ) where
  -- It does, under an identifier that was given out.
  abbrev Given : Memory → Type 0
  Given m =
      (id : ℕ) × (d : DeliveryRecord) × (lookup id m.deliveries ≡ some d)
      × P d
      × (id ≤ m.next_delivery_id)

  enqueue_delivery-Given :
      (m : Memory) (tenant : Text) (d : PendingDelivery)
      → Given m
      → Given (enqueue_delivery clock m tenant d).0
  unfolding enqueue_delivery
  enqueue_delivery-Given m tenant d (id, x, at, p, le) =
      elim (Bool-cases (text_beq d.tenant_id tenant)) [
        | inr e ↦ rw e (id, x, at, p, le)
        | inl e ↦
            let new = m.next_delivery_id + 1 in
            let other : (new == id) ≡ false = ground (arith, le) in
            let kept = lookup-insert new id (queued clock new tenant d) m.deliveries in
            rw e (id, x, kept ∙ rw other at, p, omega (arith, le))
      ]

  enqueue_delivery-Given_new :
      (m : Memory) (tenant : Text) (d : PendingDelivery)
      → d.tenant_id ≡ tenant
      → ((k : ℕ) → P (queued clock k tenant d))
      → Given (enqueue_delivery clock m tenant d).0
  unfolding enqueue_delivery
  enqueue_delivery-Given_new m tenant d e p =
      let new = m.next_delivery_id + 1 in
      let same : text_beq d.tenant_id tenant ≡ true = (text_beq_iff d.tenant_id tenant).1 e in
      rw same (
        new,
        queued clock new tenant d,
        lookup-insert_self new (queued clock new tenant d) m.deliveries,
        p new,
        omega arith,
      )

  enqueue_delivery-ok :
      (m : Memory) (tenant : Text) (d : PendingDelivery)
      → d.tenant_id ≡ tenant
      → (enqueue_delivery clock m tenant d).1 ≡ ok (m.next_delivery_id + 1)
  unfolding enqueue_delivery
  enqueue_delivery-ok m tenant d e =
      let same : text_beq d.tenant_id tenant ≡ true = (text_beq_iff d.tenant_id tenant).1 e in
      rw same refl

  module _ (tenant id event payload : Text) where
    -- A turn of the loop, for an endpoint that takes the event.
    queue_loop_step :
        (ep : WebhookEndpoint) (eps : List WebhookEndpoint) (m : Memory) (n : ℕ)
        → takes ep event ≡ true
        → queue_loop clock tenant id event payload (ep ∷ eps) m n
          ≡ queue_loop clock tenant id event payload eps
              (enqueue_delivery clock m tenant (pending_for tenant id event payload ep)).0
              (n + 1)
    unfolding queue_loop
    queue_loop_step ep eps m n e =
        let done = enqueue_delivery-ok m tenant (pending_for tenant id event payload ep) refl in
        rw (e, queue_loop, done) refl

    queue_loop-Given :
        (eps : List WebhookEndpoint) (m : Memory) (n : ℕ)
        → Given m
        → Given (queue_loop clock tenant id event payload eps m n).0
    unfolding queue_loop
    queue_loop-Given [] m n g = g
    queue_loop-Given (ep ∷ eps) m n g = elim (Bool-cases (takes ep event)) [
      | inr e ↦ rw (e, queue_loop) (queue_loop-Given eps m n g)
      | inl e ↦
          let d = pending_for tenant id event payload ep in
          rw (queue_loop_step ep eps m n e) (
            queue_loop-Given eps (enqueue_delivery clock m tenant d).0 (n + 1)
              (enqueue_delivery-Given m tenant d g))
    ]

    queue_loop-Given_new :
        (ep : WebhookEndpoint) (eps : List WebhookEndpoint) (m : Memory) (n : ℕ)
        → Listed ep eps
        → takes ep event ≡ true
        → ((k : ℕ) → P (queued clock k tenant (pending_for tenant id event payload ep)))
        → Given (queue_loop clock tenant id event payload eps m n).0
    unfolding queue_loop
    queue_loop-Given_new ep [] m n l takes_it p = absurd l
    queue_loop-Given_new ep (x ∷ eps) m n l takes_it p =
        let d = pending_for tenant id event payload x in
        let m' = (enqueue_delivery clock m tenant d).0 in
        elim l [
          | inl same ↦
              rw (queue_loop_step x eps m n (subst (λ y. takes y event ≡ true) (sym same) takes_it))
                (queue_loop-Given eps m' (n + 1) (
                  enqueue_delivery-Given_new m tenant d refl (
                    subst
                      (λ y.
                        (k : ℕ) → P (queued clock k tenant (pending_for tenant id event payload y)))
                      (sym same) p)))
          | inr later ↦ elim (Bool-cases (takes x event)) [
            | inl e ↦
                rw (queue_loop_step x eps m n e)
                  (queue_loop-Given_new ep eps m' (n + 1) later takes_it p)
            | inr e ↦ rw (e, queue_loop) (queue_loop-Given_new ep eps m n later takes_it p)
          ]
        ]

after_loop-deliveries :
    (clock at : ℕ) (t : Transaction) (event : Text) (p : Memory × ℕ × Option Error)
    → (after_loop clock at t event p).0.deliveries ≡ p.0.deliveries
unfolding mark_reversal_pending
after_loop-deliveries clock at t event (m, n, some e) = refl
after_loop-deliveries clock at t event (m, n, none) =
    let r = mark_reversal_pending clock m t.tenant_id t.transaction_id at in
    if_cases (λ (x : Memory × ℕ × Option Error). x.0.deliveries ≡ m.deliveries)
      (ltb 0 n && text_beq event reversal_triggered) _ (m, n, none)
      (λ e.
        ap (λ (x : Memory). x.deliveries) (after_pending-memory n r)
        ∙ mark_reversal-deliveries clock m t.tenant_id t.transaction_id reversal_pending at)
      (λ e. refl)

module _ (digest : HashedContent → Option Text) (formats : Formats)
    (marshal : Envelope → Option Text) (clock at : ℕ) where
  -- If the transaction was not backfilled and the payload can be encoded, then each endpoint of the
  -- tenant that takes the event has a delivery in the queue.
  pub notify-Offers :
      (s : Progress) (t : Transaction) (ev : Evidence) (event : Text) (ep : WebhookEndpoint)
      {payload : Text}
      → t.is_backfill ≡ false
      → marshal (envelope_for event t at ev) ≡ some payload
      → Listed ep (endpoints_for s.memory t.tenant_id s.cache).1
      → takes ep event ≡ true
      → Holds
          (Offers t.tenant_id t.transaction_id event ep.id)
          (notify digest formats marshal clock at s t ev event).0.memory
  unfolding notify queue
  notify-Offers s t ev event ep {payload} fresh encoded listed takes_it =
      let P = Offers t.tenant_id t.transaction_id event ep.id in
      let (cache, eps) = endpoints_for s.memory t.tenant_id s.cache in
      let m = record_verdict digest formats clock at s.memory t event ev in
      let looped = queue_loop clock t.tenant_id t.transaction_id event payload eps m 0 in
      let (id, d, found, offers, low) =
        queue_loop-Given_new P clock t.tenant_id t.transaction_id event payload ep eps m 0 listed
          takes_it (λ k. (refl, refl, refl, refl, refl)) in
      let all = after_loop-deliveries clock at t event looped in
      let q = queue marshal clock at m t event eps ev in
      let done : after_loop clock at t event looped ≡ q = rw (encoded, queue) refl in
      if_cases (λ (r : Progress × Option Error). Holds P r.0.memory) t.is_backfill (s, none)
        (after_queue digest formats marshal clock at s.res cache q) (λ e. absurd (cc))
        (λ e.
          subst (Holds P)
            (ap (λ (x : Memory × ℕ × Option Error). x.0) done
              ∙ sym (after_queue-memory digest formats marshal clock at s.res cache q))
            (id, d, ap (lookup id) all ∙ found, offers))
