-- ===== src/Service/Detector/Frames.antt =====
-- What the steps of a sweep add to the queue, and that nothing in it changes.
use recon_sync.Common.{
  ℕ, ◌+◌, Bool, ◌||◌, ◌≡◌, ◌⊎◌, inl, inr, sym, ap, subst, ◌∙◌, Option, some, List, [], ◌∷◌, Text,
  lookup, text_beq, nat_eq, text_eq, lookup-insert, Bool-cases, arith, ◌==◌,
}
use recon_sync.Domain.Status.{Status}
use recon_sync.Domain.Errors.{Result-cases}
use recon_sync.Audit.Chain.{Record, HashedContent}
use recon_sync.Store.State.{Memory, DeliveryRecord, WebhookEndpoint}
use recon_sync.Store.Ledger.{append_audit}
use recon_sync.Store.Reversals.{mark_reversal}
use recon_sync.Store.Webhooks.{PendingDelivery, queued, enqueue_delivery}
use recon_sync.Service.Detector.Queue.{takes, pending_for, queue_loop}
use recon_sync.Service.Detector.Alerts.{alert_loop, is_ok}

append_audit-deliveries :
    (digest : HashedContent → Option Text) (clock : ℕ) (m : Memory) (tenant : Text) (r : Record)
    → (append_audit digest clock m tenant r).0.deliveries ≡ m.deliveries
unfolding append_audit
append_audit-deliveries digest clock m tenant r = ground arith

pub mark_reversal-deliveries :
    (clock : ℕ) (m : Memory) (tenant id : Text) (to : Status) (now : ℕ)
    → (mark_reversal clock m tenant id to now).0.deliveries ≡ m.deliveries
unfolding mark_reversal
mark_reversal-deliveries clock m tenant id to now = ground arith

some_inj : (a b : DeliveryRecord) → some a ≡ some b → a ≡ b
some_inj a b h = cc

module _ (P : DeliveryRecord → Type 0) where
  -- Every delivery of the second state stands in the first one or is as `P` says.
  abbrev pub Only : Memory → Memory → Type 0
  Only m m' =
      (id : ℕ) (d : DeliveryRecord)
      → lookup id m'.deliveries ≡ some d
      → (lookup id m.deliveries ≡ some d) ⊎ P d

  pub Only-refl : (m : Memory) → Only m m
  Only-refl m id d h = inl h

  pub Only-trans : (a b c : Memory) → Only a b → Only b c → Only a c
  Only-trans a b c f g id d h = elim (g id d h) [ inl k ↦ f id d k | inr p ↦ inr p ]

  pub Only-same : (m m' : Memory) → m'.deliveries ≡ m.deliveries → Only m m'
  Only-same m m' e id d h = inl (ap (lookup id) (sym e) ∙ h)

  enqueue_delivery-Only :
      (clock : ℕ) (m : Memory) (tenant : Text) (d : PendingDelivery)
      → ((id : ℕ) → P (queued clock id tenant d))
      → Only m (enqueue_delivery clock m tenant d).0
  unfolding enqueue_delivery
  enqueue_delivery-Only clock m tenant d p id x h =
      let new = m.next_delivery_id + 1 in
      elim (Bool-cases (text_beq d.tenant_id tenant)) [
        | inr e ↦ inl (ground arith)
        | inl e ↦
            let at = lookup-insert new id (queued clock new tenant d) m.deliveries in
            elim (Bool-cases (new == id)) [
              | inr f ↦ inl (ground (arith, at))
              | inl f ↦ inr (subst P (some_inj _ _ (ground (arith, at))) (p new))
            ]
      ]

  pub queue_loop-Only :
      (clock : ℕ) (tenant id event payload : Text) (eps : List WebhookEndpoint) (m : Memory) (n : ℕ)
      → ((ep : WebhookEndpoint) (k : ℕ)
          → P (queued clock k tenant (pending_for tenant id event payload ep)))
      → Only m (queue_loop clock tenant id event payload eps m n).0
  unfolding queue_loop
  queue_loop-Only clock tenant id event payload [] m n p = Only-refl m
  queue_loop-Only clock tenant id event payload (ep ∷ eps) m n p =
      let d = pending_for tenant id event payload ep in
      let here = enqueue_delivery-Only clock m tenant d (p ep) in
      elim (Bool-cases (takes ep event)) [
        | inr e ↦ rw (e, queue_loop) (queue_loop-Only clock tenant id event payload eps m n p)
        | inl e ↦ elim (Result-cases (enqueue_delivery clock m tenant d).1) [
          | inr (bad, f) ↦ rw (e, queue_loop, f) here
          | inl (k, f) ↦
              let m' = (enqueue_delivery clock m tenant d).0 in
              rw (e, queue_loop, f)
                (Only-trans m m' (queue_loop clock tenant id event payload eps m' (n + 1)).0 here
                  (queue_loop-Only clock tenant id event payload eps m' (n + 1) p))
        ]
      ]

  pub alert_loop-Only :
      (clock : ℕ) (tenant event payload : Text) (eps : List WebhookEndpoint) (m : Memory) (b : Bool)
      → ((ep : WebhookEndpoint) (k : ℕ)
          → P (queued clock k tenant (pending_for tenant [] event payload ep)))
      → Only m (alert_loop clock tenant event payload eps m b).0
  unfolding alert_loop
  alert_loop-Only clock tenant event payload [] m b p = Only-refl m
  alert_loop-Only clock tenant event payload (ep ∷ eps) m b p =
      let d = pending_for tenant [] event payload ep in
      let r = enqueue_delivery clock m tenant d in
      elim (Bool-cases (takes ep event)) [
        | inr e ↦ rw (e, alert_loop) (alert_loop-Only clock tenant event payload eps m b p)
        | inl e ↦
            rw (e, alert_loop)
              (Only-trans m r.0 (alert_loop clock tenant event payload eps r.0 (b || is_ok r.1)).0
                (enqueue_delivery-Only clock m tenant d (p ep))
                (alert_loop-Only clock tenant event payload eps r.0 (b || is_ok r.1) p))
      ]

  pub append_audit-Only :
      (digest : HashedContent → Option Text) (clock : ℕ) (m : Memory) (tenant : Text) (r : Record)
      → Only m (append_audit digest clock m tenant r).0
  append_audit-Only digest clock m tenant r =
      Only-same m (append_audit digest clock m tenant r).0
        (append_audit-deliveries digest clock m tenant r)

  pub mark_reversal-Only :
      (clock : ℕ) (m : Memory) (tenant id : Text) (to : Status) (now : ℕ)
      → Only m (mark_reversal clock m tenant id to now).0
  mark_reversal-Only clock m tenant id to now =
      Only-same m (mark_reversal clock m tenant id to now).0
        (mark_reversal-deliveries clock m tenant id to now)
