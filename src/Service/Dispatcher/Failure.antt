-- ===== src/Service/Dispatcher/Failure.antt =====
-- A reversal that cannot be delivered is marked as failed.
use recon_sync.Common.{
  ℕ, ◌+◌, ◌<◌, ◌≤◌, ◌⊎◌, inl, inr, false, sym, subst, arith, length, [], ◌∷◌, text_beq, ◌≡◌, refl,
  ap, ◌∙◌, some, List, Text, lookup, insert, nat_eq, lookup-insert_self, pair_eq, text_eq,
}
use recon_sync.Domain.Status.{transition, can_transition, reversal_pending, reversal_failed}
use recon_sync.Domain.Errors.{Result, ok}
use recon_sync.Domain.Transaction.{Transaction}
use recon_sync.Webhook.Payload.{reversal_triggered}
use recon_sync.Store.State.{Memory, DeliveryRecord}
use recon_sync.Store.Reversals.{marked, mark_reversal, mark_reversal_failed}
use recon_sync.Store.Webhooks.{DueDelivery, due_delivery, recorded}
use recon_sync.Webhook.Retry.{max_attempts}
use recon_sync.Webhook.Decide.{pending, delivered, dead_letter}
use recon_sync.Service.Dispatcher.{Try, attempt, outcome_of, written, after_mark}
use recon_sync.Service.Dispatcher.Retries.{
  after_outcome, attempt_found, attempt_all, outcome_cases, attempt_all-stays, first_attempt,
}

abbrev with_transaction : Memory → Text → Text → Transaction → Memory
with_transaction m tenant id t = record m { by_tenant = insert (tenant, id) t m.by_tenant }

mark_failed :
    (clock : ℕ) (m : Memory) (tenant id : Text) (t : Transaction)
    → lookup (tenant, id) m.by_tenant ≡ some t
    → t.status ≡ reversal_pending
    → let t' = marked reversal_failed clock clock t in
      mark_reversal_failed clock m tenant id clock ≡ (with_transaction m tenant id t', ok t')
unfolding mark_reversal_failed mark_reversal transition can_transition
mark_failed clock m tenant id t g s = rw (g, s, mark_reversal, transition) refl

-- An attempt on a `reversal.triggered` that ends in the dead letters marks the transaction.
attempt-dead_letter :
    (m : Memory) (item : DueDelivery) (secrets : List Text) (a : Try) (d : DeliveryRecord)
    (t : Transaction)
    → lookup item.id m.deliveries ≡ some d
    → lookup (item.tenant_id, item.transaction_id) m.by_tenant ≡ some t
    → t.status ≡ reversal_pending
    → item.event_type ≡ reversal_triggered
    → (outcome_of a item.attempt).status ≡ dead_letter
    → lookup (item.tenant_id, item.transaction_id) (attempt m item (ok secrets) a).0.by_tenant
      ≡ some (marked reversal_failed a.now a.now t)
attempt-dead_letter m item secrets a d t h g s ev o =
    let m1 = after_outcome m item.id (written a item.attempt) d in
    let t1 = marked reversal_failed a.now a.now t in
    let key : Text × Text = (item.tenant_id, item.transaction_id) in
    let m2 = with_transaction m1 item.tenant_id item.transaction_id t1 in
    let all : attempt m item (ok secrets) a ≡ (m2, ok dead_letter) =
      attempt_found m item secrets a d h
      ∙ rw (o, ev)
          (ap (after_mark dead_letter)
            (mark_failed a.now m1 item.tenant_id item.transaction_id t g s)) in
    ap (λ (r : Memory × Result Text). lookup key r.0.by_tenant) all
    ∙ lookup-insert_self key t1 m.by_tenant

module _ (m : Memory) (d : DeliveryRecord) (secrets : List Text) (a : Try)
    (found : lookup d.id m.deliveries ≡ some d) where
  -- An attempt that does not end in the dead letters leaves the transactions.
  attempt-by_tenant :
      text_beq (outcome_of a d.attempt).status dead_letter ≡ false
      → (attempt m (due_delivery m d) (ok secrets) a).0.by_tenant ≡ m.by_tenant
  unfolding due_delivery
  attempt-by_tenant o =
      let status = (outcome_of a d.attempt).status in
      let m1 = after_outcome m d.id (written a d.attempt) d in
      let all : attempt m (due_delivery m d) (ok secrets) a ≡ (m1, ok status) =
        attempt_found m (due_delivery m d) secrets a d found ∙ rw o refl in
      ap (λ (r : Memory × Result Text). r.0.by_tenant) all

-- The delivery is delivered and the transaction as it was, or it is a dead letter and the reversal
-- has failed.
abbrev pub Told : ℕ → Text × Text → Transaction → Memory → Type 0
Told id key t m =
    (d : DeliveryRecord) × (t' : Transaction) × (lookup id m.deliveries ≡ some d)
    × (lookup key m.by_tenant ≡ some t')
    × (((d.status ≡ delivered) × (t' ≡ t))
        ⊎ ((d.status ≡ dead_letter) × (t'.status ≡ reversal_failed)))

-- If a pending `reversal.triggered` delivery is stored under its own identifier and has attempts
-- left, and its transaction is `reversal_pending`, then once the attempts that the schedule has are
-- made, whatever the endpoint answers, either the delivery is delivered and the transaction is as it
-- was, or the delivery is a dead letter and the transaction is `reversal_failed`.
pub attempt_all-Told :
    (m : Memory) (id : ℕ) (d : DeliveryRecord) (t : Transaction) (tries : List (List Text × Try))
    → lookup id m.deliveries ≡ some d
    → d.id ≡ id
    → d.status ≡ pending
    → d.event_type ≡ reversal_triggered
    → d.attempt < max_attempts
    → max_attempts ≤ d.attempt + length tries
    → lookup (d.tenant_id, d.transaction_id) m.by_tenant ≡ some t
    → t.status ≡ reversal_pending
    → Told id (d.tenant_id, d.transaction_id) t (attempt_all m id tries)
unfolding attempt_all written due_delivery
attempt_all-Told m id d t [] h q s ev low high g p = absurd (omega arith)
attempt_all-Told m id d t ((secrets, a) ∷ tries) h q s ev low high g p =
    let key : Text × Text = (d.tenant_id, d.transaction_id) in
    let m1 = (attempt m (due_delivery m d) (ok secrets) a).0 in
    let d1 = recorded (written a d.attempt) d in
    let h0 : lookup d.id m.deliveries ≡ some d = ap (λ k. lookup k m.deliveries) q ∙ h in
    let h1 = first_attempt m id d secrets a h q in
    let next : attempt_all m id ((secrets, a) ∷ tries) ≡ attempt_all m1 id tries =
      rw (h, s, attempt_all) refl in
    subst (Told id key t) (sym next) (elim (outcome_cases a d.attempt) [
      | inl o ↦
          let alive : text_beq (outcome_of a d.attempt).status dead_letter ≡ false = rw o refl in
          let shut : text_beq d1.status pending ≡ false = rw o refl in
          let same = ap (lookup key) (attempt-by_tenant m d secrets a h0 alive) in
          subst (Told id key t) (sym (attempt_all-stays m1 id d1 tries h1 shut))
            (d1, t, h1, same ∙ g, inl (o, refl))
      | inr (inl o) ↦
          let shut : text_beq d1.status pending ≡ false = rw o refl in
          subst (Told id key t) (sym (attempt_all-stays m1 id d1 tries h1 shut)) (
            d1,
            marked reversal_failed a.now a.now t,
            h1,
            attempt-dead_letter m (due_delivery m d) secrets a d t h0 g p ev o,
            inr (o, refl),
          )
      | inr (inr o) ↦
          let alive : text_beq (outcome_of a d.attempt).status dead_letter ≡ false =
            rw (o.0) refl in
          let same = ap (lookup key) (attempt-by_tenant m d secrets a h0 alive) in
          attempt_all-Told m1 id d1 t tries h1 q o.0 ev (omega arith) (omega arith) (same ∙ g) p
    ])
