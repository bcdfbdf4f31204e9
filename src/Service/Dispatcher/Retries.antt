-- ===== src/Service/Dispatcher/Retries.antt =====
-- A delivery that is attempted whenever it is pending comes to an end.
use recon_sync.Common.{
  ℕ, ◌+◌, ◌<◌, ◌≤◌, false, ◌≡◌, refl, sym, ap, ◌∙◌, ◌⊎◌, inl, inr, none, some, List, [], ◌∷◌, Text,
  arith, lookup, insert, length, text_beq, nat_eq, if◌then◌else◌, lookup-insert_self, pair_eq,
  text_eq, subst,
}
use recon_sync.Domain.Errors.{
  validation, sensitive, unknown_credit_status, empty_event, not_found, tenant_mismatch, illegal,
  failure, Result, ok, err,
}
use recon_sync.Domain.Transaction.{Transaction}
use recon_sync.Store.State.{Memory, DeliveryRecord}
use recon_sync.Store.Reversals.{mark_reversal, mark_reversal_failed}
use recon_sync.Store.Webhooks.{
  DueDelivery, DeliveryOutcome, recorded, record_delivery_outcome, due_delivery,
}
use recon_sync.Webhook.Retry.{max_attempts, should_retry}
use recon_sync.Webhook.Decide.{decide, pending, delivered, dead_letter}
use recon_sync.Service.Dispatcher.{Try, attempt, outcome_of, written, after_mark, after_record}

pub outcome_cases :
    (a : Try) (n : ℕ)
    → ((outcome_of a n).status ≡ delivered)
      ⊎ (((outcome_of a n).status ≡ dead_letter)
          ⊎ (((outcome_of a n).status ≡ pending) × (n + 1 < max_attempts)))
unfolding outcome_of decide should_retry
outcome_cases a n = ground arith

after_mark-fst :
    (status : Text) (m : Memory) (r : Result Transaction) → (after_mark status (m, r)).0 ≡ m
after_mark-fst status m (ok t) = refl
after_mark-fst status m (err (validation e)) = refl
after_mark-fst status m (err (sensitive e)) = refl
after_mark-fst status m (err (unknown_credit_status e)) = refl
after_mark-fst status m (err empty_event) = refl
after_mark-fst status m (err not_found) = refl
after_mark-fst status m (err tenant_mismatch) = refl
after_mark-fst status m (err (illegal e)) = refl
after_mark-fst status m (err (failure e)) = refl

mark_same :
    (clock : ℕ) (m : Memory) (tenant id : Text) (at : ℕ)
    → (mark_reversal_failed clock m tenant id at).0.deliveries ≡ m.deliveries
unfolding mark_reversal_failed mark_reversal
mark_same clock m tenant id at = ground arith

after_record_same :
    (a : Try) (item : DueDelivery) (status : Text) (m : Memory)
    → (after_record a item status (m, none)).0.deliveries ≡ m.deliveries
after_record_same a item status m =
    ground
      (arith, after_mark-fst status, mark_same a.now m item.tenant_id item.transaction_id a.now)

abbrev pub after_outcome : Memory → ℕ → DeliveryOutcome → DeliveryRecord → Memory
after_outcome m id out d = record m { deliveries = insert id (recorded out d) m.deliveries }

outcome_found :
    (m : Memory) (id : ℕ) (out : DeliveryOutcome) (d : DeliveryRecord)
    → lookup id m.deliveries ≡ some d
    → record_delivery_outcome m id out ≡ (after_outcome m id out d, none)
unfolding record_delivery_outcome
outcome_found m id out d h = rw (h, record_delivery_outcome) refl

pub attempt_found :
    (m : Memory) (item : DueDelivery) (secrets : List Text) (a : Try) (d : DeliveryRecord)
    → lookup item.id m.deliveries ≡ some d
    → attempt m item (ok secrets) a
      ≡ after_record a item
          (outcome_of a item.attempt).status
          (after_outcome m item.id (written a item.attempt) d, none)
unfolding attempt
attempt_found m item secrets a d h =
    ap (after_record a item (outcome_of a item.attempt).status)
      (outcome_found m item.id (written a item.attempt) d h)

attempt-recorded :
    (m : Memory) (item : DueDelivery) (secrets : List Text) (a : Try) (d : DeliveryRecord)
    → lookup item.id m.deliveries ≡ some d
    → lookup item.id (attempt m item (ok secrets) a).0.deliveries
      ≡ some (recorded (written a item.attempt) d)
attempt-recorded m item secrets a d h =
    let out = written a item.attempt in
    let m' = after_outcome m item.id out d in
    ap (λ (r : Memory × Result Text). lookup item.id r.0.deliveries)
      (attempt_found m item secrets a d h)
    ∙ (ap (lookup item.id) (after_record_same a item (outcome_of a item.attempt).status m')
        ∙ lookup-insert_self item.id (recorded out d) m.deliveries)

-- Attempts on one delivery, each if the store still holds it as pending.
unfoldable pub attempt_all : Memory → ℕ → List (List Text × Try) → Memory
unfolding attempt
attempt_all m id [] = m
attempt_all m id ((secrets, a) ∷ tries) = elim (lookup id m.deliveries) [
  | none ↦ m
  | some d ↦
      let rest = attempt_all (attempt m (due_delivery m d) (ok secrets) a).0 id tries in
      if text_beq d.status pending then rest else m
]

-- The delivery has ended, within the attempts that the schedule has.
abbrev pub Ended : ℕ → Memory → Type 0
Ended id m =
    (d : DeliveryRecord) × (lookup id m.deliveries ≡ some d)
    × (d.attempt ≤ max_attempts)
    × ((d.status ≡ delivered) ⊎ (d.status ≡ dead_letter))

pub attempt_all-stays :
    (m : Memory) (id : ℕ) (d : DeliveryRecord) (tries : List (List Text × Try))
    → lookup id m.deliveries ≡ some d
    → text_beq d.status pending ≡ false
    → attempt_all m id tries ≡ m
unfolding attempt_all
attempt_all-stays m id d [] h s = refl
attempt_all-stays m id d ((secrets, a) ∷ tries) h s = rw (h, s, attempt_all) refl

pub first_attempt :
    (m : Memory) (id : ℕ) (d : DeliveryRecord) (secrets : List Text) (a : Try)
    → lookup id m.deliveries ≡ some d
    → d.id ≡ id
    → lookup id (attempt m (due_delivery m d) (ok secrets) a).0.deliveries
      ≡ some (recorded (written a d.attempt) d)
unfolding due_delivery
first_attempt m id d secrets a h q =
    let item = due_delivery m d in
    subst
      (λ k.
        lookup k (attempt m item (ok secrets) a).0.deliveries
        ≡ some (recorded (written a d.attempt) d))
      q
      (attempt-recorded m item secrets a d (subst (λ k. lookup k m.deliveries ≡ some d) (sym q) h))

-- A pending delivery that is stored under its own identifier and has attempts left is delivered
-- or dead-lettered once the attempts that the schedule has are made, whatever the endpoint
-- answers, and stays so: no more than six attempts are ever counted.
pub attempt_all-Ended :
    (m : Memory) (id : ℕ) (d : DeliveryRecord) (tries : List (List Text × Try))
    → lookup id m.deliveries ≡ some d
    → d.id ≡ id
    → d.status ≡ pending
    → d.attempt < max_attempts
    → max_attempts ≤ d.attempt + length tries
    → Ended id (attempt_all m id tries)
unfolding attempt_all written
attempt_all-Ended m id d [] h q s low high = absurd (omega arith)
attempt_all-Ended m id d ((secrets, a) ∷ tries) h q s low high =
    let m1 = (attempt m (due_delivery m d) (ok secrets) a).0 in
    let d1 = recorded (written a d.attempt) d in
    let h1 = first_attempt m id d secrets a h q in
    let next : attempt_all m id ((secrets, a) ∷ tries) ≡ attempt_all m1 id tries =
      rw (h, s, attempt_all) refl in
    let ended : (d1.status ≡ delivered) ⊎ (d1.status ≡ dead_letter)
        → Ended id (attempt_all m1 id tries) =
      λ e.
        let shut : text_beq d1.status pending ≡ false = elim e [
          | inl p ↦ rw p refl
          | inr p ↦ rw p refl
        ] in
        subst (Ended id) (sym (attempt_all-stays m1 id d1 tries h1 shut))
          (d1, h1, omega arith, e) in
    subst (Ended id) (sym next) (elim (outcome_cases a d.attempt) [
      | inl p ↦ ended (inl p)
      | inr (inl p) ↦ ended (inr p)
      | inr (inr p) ↦ attempt_all-Ended m1 id d1 tries h1 q p.0 (omega arith) (omega arith)
    ])
