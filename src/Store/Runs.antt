-- ===== src/Store/Runs.antt =====
-- Any sequence of calls of the store, by any number of processes: the lifecycle of a transaction.
use recon_sync.Common.{
  ℕ, true, false, ◌≡◌, refl, ◌∙◌, inl, inr, some, List, [], ◌∷◌, lookup, arith, Distinct,
  Option-cases, Bool-cases, text_eq, pair_eq, Text, All, All-map,
}
use recon_sync.Domain.Status.{Status, is_open}
use recon_sync.Domain.Status.Machine.{Reach, is_dispatched, Reach-is_dispatched, Reach-is_open}
use recon_sync.Domain.Transaction.{Transaction, CreditEvent, is_expired_at}
use recon_sync.Store.State.{Key, Memory, IngestSample}
use recon_sync.Store.Parking.{park_credit, delete_parked_credit}
use recon_sync.Store.Health.{
  record_ingest_health, add_sample, open_one, sync_silence_episodes, open_episodes, SilenceEpisode,
}
use recon_sync.Store.Calls.{
  Call, upsert, credit, partial_credit, mark, park, unpark, claim, warn, health, silence, exec, run,
}
use recon_sync.Store.Evolution.{Evolves}
use recon_sync.Store.Expiry.{
  Entry, is_due, due_entries, claimed, claim_expired, warn_loop, warned, after_warning,
  claim_sla_at_risk,
}
use recon_sync.Store.Lifecycle.{
  Sound, Sound-same, Sound-trans, Sound-update, upsert_debits-Sound, apply_credit-Sound,
  apply_partial_credit-Sound, mark_reversal-Sound,
}
use recon_sync.Store.Claiming.{claim_expired-Sound, claim_expired-Kept}
use recon_sync.Store.Sweep.{Kept, claimed_closed}

warn_loop-Sound : (now : ℕ) (m : Memory) (ks : List Key) → Sound m (warn_loop now m ks).0
unfolding warn_loop
warn_loop-Sound now m [] = Sound-same refl
warn_loop-Sound now m (k ∷ ks) = elim (Option-cases (lookup k m.by_tenant)) [
  | inl e ↦ rw (e, warn_loop) (warn_loop-Sound now m ks)
  | inr (t, e) ↦
      rw (e, warn_loop)
        (Sound-trans
          (Sound-update m (after_warning now m k t) k t (warned now t) e (refl, Reach.here) refl)
          (warn_loop-Sound now (after_warning now m k t) ks))
]

claim_sla_at_risk-Sound :
    (m : Memory) (now deadline ahead limit : ℕ)
    → Sound m (claim_sla_at_risk m now deadline ahead limit).0
unfolding claim_sla_at_risk
claim_sla_at_risk-Sound m now deadline ahead limit = warn_loop-Sound now m _

park_same :
    (m : Memory) (tenant : Text) (c : CreditEvent)
    → (park_credit m tenant c).0.by_tenant ≡ m.by_tenant
unfolding park_credit
park_same m tenant c = ground arith

health_same :
    (m : Memory) (samples : List IngestSample)
    → (record_ingest_health m samples).by_tenant ≡ m.by_tenant
unfolding record_ingest_health add_sample
health_same m [] = refl
health_same m (s ∷ samples) = health_same (add_sample m s) samples

open_one_same :
    (m : Memory) (now : ℕ) (id : Text) (opened : List SilenceEpisode)
    → (open_one m now id opened).0.by_tenant ≡ m.by_tenant
unfolding open_one
open_one_same m now id opened = ground arith

episodes_same :
    (m : Memory) (now : ℕ) (ids : List Text) (opened : List SilenceEpisode)
    → (open_episodes m now ids opened).0.by_tenant ≡ m.by_tenant
unfolding open_episodes
episodes_same m now [] opened = refl
episodes_same m now (id ∷ ids) opened =
    episodes_same (open_one m now id opened).0 now ids (open_one m now id opened).1
    ∙ open_one_same m now id opened

silence_same :
    (m : Memory) (tenants : List Text) (now : ℕ)
    → (sync_silence_episodes m tenants now).0.by_tenant ≡ m.by_tenant
unfolding sync_silence_episodes
silence_same m tenants now = episodes_same m now tenants []

exec-Sound : (clock : ℕ) (m : Memory) (c : Call) → Distinct m.by_tenant → Sound m (exec clock m c)
unfolding exec delete_parked_credit
exec-Sound clock m (upsert tenant ts) d = upsert_debits-Sound clock m tenant ts
exec-Sound clock m (credit tenant id target at) d = apply_credit-Sound clock m tenant id target at
exec-Sound clock m (partial_credit tenant c) d = apply_partial_credit-Sound clock m tenant c
exec-Sound clock m (mark tenant id target at) d = mark_reversal-Sound clock m tenant id target at
exec-Sound clock m (park tenant c) d = Sound-same (park_same m tenant c)
exec-Sound clock m (unpark tenant id) d = Sound-same refl
exec-Sound clock m (claim now limit skip) d = claim_expired-Sound m now limit skip d
exec-Sound clock m (warn now deadline ahead limit) d =
    claim_sla_at_risk-Sound m now deadline ahead limit
exec-Sound clock m (health samples) d = Sound-same (health_same m samples)
exec-Sound clock m (silence tenants now) d = Sound-same (silence_same m tenants now)

run-Sound : (m : Memory) (calls : List (ℕ × Call)) → Distinct m.by_tenant → Sound m (run m calls)
unfolding run
run-Sound m [] d = Sound-same refl
run-Sound m ((clock, c) ∷ calls) d =
    let first = exec-Sound clock m c d in
    Sound-trans first (run-Sound (exec clock m c) calls (first.distinct d))

-- In a store whose map holds each key once, no sequence of calls removes a transaction, changes
-- what was fixed at its debit, or moves its status but along the state machine; and a transaction
-- that the calls add has come from `pending_debit` along the state machine.
pub run-Evolves :
    (m : Memory) (calls : List (ℕ × Call))
    → Distinct m.by_tenant
    → Distinct (run m calls).by_tenant × Evolves m.by_tenant (run m calls).by_tenant
run-Evolves m calls d = let s = run-Sound m calls d in (s.distinct d, s.evolves)

-- In a store whose map holds each key once, once a reversal was sent out, no sequence of calls
-- makes the transaction completed, suspect or orphaned again: its status stays one of the three
-- reversal states.
pub run-is_dispatched :
    (m : Memory) (calls : List (ℕ × Call)) (k : Key) (t : Transaction)
    → Distinct m.by_tenant
    → lookup k m.by_tenant ≡ some t
    → is_dispatched t.status ≡ true
    → (t' : Transaction) × (lookup k (run m calls).by_tenant ≡ some t')
      × (is_dispatched t'.status ≡ true)
run-is_dispatched m calls k t d h s =
    let (t', e, mv) = (run-Evolves m calls d).1.keeps k t h in (t', e, Reach-is_dispatched mv.1 s)

closed_stays : {s t : Status} → Reach s t → is_open s ≡ false → is_open t ≡ false
closed_stays {s} {t} r h = elim (Bool-cases (is_open t)) [
  | inl e ↦ absurd (cc (Reach-is_open r e, h))
  | inr e ↦ e
]

-- In a store whose map holds each key once, what a sweep claims is never open again, whatever
-- calls follow, and so is never due again: no transaction is claimed twice.
pub run-claim_expired :
    (m : Memory) (now limit : ℕ) (skip : List Text) (calls : List (ℕ × Call))
    → Distinct m.by_tenant
    → All
        (λ (e : Entry).
          (t' : Transaction) × (lookup e.0 (run (claim_expired m now limit skip).0 calls).by_tenant
            ≡ some t')
          × (is_open t'.status ≡ false)
          × ((now' : ℕ) (skip' : List Text) → is_due now' skip' (e.0, t') ≡ false))
        (due_entries m now limit skip)
unfolding is_expired_at
run-claim_expired m now limit skip calls d =
    let m' = (claim_expired m now limit skip).0 in
    let d' = (claim_expired-Sound m now limit skip d).distinct d in
    All-map (Kept now m m') _
      (λ e h.
        let (t', g, mv) = (run-Evolves m' calls d').1.keeps e.0 (claimed now m e.1) h in
        let shut = closed_stays mv.1 (claimed_closed now m e.1) in
        (t', g, shut, λ now' skip'. ground (arith, shut)))
      (due_entries m now limit skip) (claim_expired-Kept m now limit skip d)
