-- ===== src/Service/Detector/Rail.antt =====
-- What the rail changes in the judgement of one claimed transaction.
use recon_sync.Common.{
  ℕ, ◌≤◌, true, false, ◌≡◌, ◌⊎◌, refl, sym, subst, inl, inr, some, Bool-cases, Option-cases, arith,
  pos, Text,
}
use recon_sync.Domain.Status.{suspect, orphaned, status_beq}
use recon_sync.Domain.Errors.{Result, ok, err}
use recon_sync.Domain.Transaction.{Transaction}
use recon_sync.Evidence.{
  Evidence, add_signal, provider_unreachable, weight_provider_unreached, confidence,
}
use recon_sync.Provider.{Outcome, RailStatus, Registry, conclusive, query}
use recon_sync.Provider.Answers.{query-cases}
use recon_sync.Store.State.{Memory}
use recon_sync.Store.Health.{has_ingest_gap}
use recon_sync.Store.Reversals.{mark_settled, mark_uncertain}
use recon_sync.Service.Detector.Verdict.{
  Detector, Formats, SweepResult, Judged, base_evidence, judge_outcome, ask_rail, corroborate,
  ref_of, after_settle, after_uncertain, with_signal,
}
use recon_sync.Service.Detector.Frames.{mark_reversal-deliveries}

-- Silence alone is worth 70 hundredths at most, also with a signal of no weight.
base_evidence-confidence :
    (formats : Formats) (m : Memory) (t : Transaction) → confidence (base_evidence formats m t) ≤ 70
unfolding base_evidence confidence
base_evidence-confidence formats m t =
    elim (Bool-cases (has_ingest_gap m t.tenant_id t.debit_at t.expected_completion_at)) [
      | inl e ↦ rw e (omega arith)
      | inr e ↦ rw e (omega arith)
    ]

weightless :
    (formats : Formats) (m : Memory) (t : Transaction) (name value : Text)
    → confidence (add_signal (base_evidence formats m t) name value (pos 0)) ≤ 70
unfolding base_evidence confidence
weightless formats m t name value =
    elim (Bool-cases (has_ingest_gap m t.tenant_id t.debit_at t.expected_completion_at)) [
      | inl e ↦ rw e (omega arith)
      | inr e ↦ rw e (omega arith)
    ]

-- The judged transaction is the claimed one, perhaps made suspect, and no delivery was touched.
abbrev pub Kept : Memory → Transaction → Judged → Type 0
Kept m t j =
    (j.memory.deliveries ≡ m.deliveries)
    × (j.txn.tenant_id ≡ t.tenant_id)
    × (j.txn.transaction_id ≡ t.transaction_id)
    × (j.txn.is_backfill ≡ t.is_backfill)
    × (status_beq j.txn.status suspect ≡ false → status_beq t.status suspect ≡ false)

after_settle-Kept :
    (j : Judged) (p : Memory × Result Transaction)
    → p.0.deliveries ≡ j.memory.deliveries
    → Kept j.memory j.txn (after_settle j p)
after_settle-Kept j (m, ok t) e = (e, refl, refl, refl, λ h. h)
after_settle-Kept j (m, err x) e = (e, refl, refl, refl, λ h. h)

after_uncertain-Kept :
    (j : Judged) (p : Memory × Result Transaction)
    → p.0.deliveries ≡ j.memory.deliveries
    → Kept j.memory j.txn (after_uncertain j p)
after_uncertain-Kept j (m, ok t) e = (e, refl, refl, refl, λ h. absurd (cc))
after_uncertain-Kept j (m, err x) e = (e, refl, refl, refl, λ h. h)

judge_outcome-Kept :
    (clock now : ℕ) (j : Judged) (s : RailStatus) (o : Outcome)
    → Kept j.memory j.txn (judge_outcome clock now j s o)
unfolding judge_outcome mark_settled mark_uncertain
judge_outcome-Kept clock now j s Outcome.settled =
    after_settle-Kept j (mark_settled clock j.memory j.txn.tenant_id j.txn.transaction_id now)
      (mark_reversal-deliveries clock j.memory j.txn.tenant_id j.txn.transaction_id _ now)
judge_outcome-Kept clock now j s Outcome.unknown =
    let k = with_signal j provider_unreachable s.detail weight_provider_unreached in
    after_uncertain-Kept k (mark_uncertain clock j.memory j.txn.tenant_id j.txn.transaction_id now)
      (mark_reversal-deliveries clock j.memory j.txn.tenant_id j.txn.transaction_id _ now)
judge_outcome-Kept clock now j s Outcome.failed = (refl, refl, refl, refl, λ h. h)
judge_outcome-Kept clock now j s Outcome.not_found = (refl, refl, refl, refl, λ h. h)
judge_outcome-Kept clock now j s (Outcome.unrecognised t) = (refl, refl, refl, refl, λ h. h)

after_uncertain-ev :
    (j : Judged) (p : Memory × Result Transaction) → (after_uncertain j p).ev ≡ j.ev
after_uncertain-ev j (m, ok t) = refl
after_uncertain-ev j (m, err e) = refl

module _ (clock : ℕ) (d : Detector) (now : ℕ) (m : Memory) (res : SweepResult)
    (t : Transaction) where
  pub corroborate-Kept : (ev : Evidence) → Kept m t (corroborate clock d now m res t ev)
  unfolding corroborate ask_rail
  corroborate-Kept ev = elim (Option-cases d.providers) [
    | inl e ↦ rw (e, corroborate) (refl, refl, refl, refl, λ h. h)
    | inr (r, e) ↦ elim (Bool-cases (status_beq t.status orphaned)) [
      | inr f ↦ rw (e, corroborate, f) (refl, refl, refl, refl, λ h. h)
      | inl f ↦
          let j : Judged = record { memory = m; res = res; txn = t; ev = ev; decided = ok false } in
          rw (e, corroborate, f)
            (judge_outcome-Kept clock now j (query clock r (ref_of t))
              (query clock r (ref_of t)).outcome)
    ]
  ]

  -- The evidence is thin, or the rail gave a conclusive answer.
  abbrev pub Weighed : Evidence → Type 0
  Weighed ev =
      (confidence ev ≤ 70)
      ⊎ ((r : Registry) × (d.providers ≡ some r)
          × (conclusive (query clock r (ref_of t)).outcome ≡ true))

  pub corroborate-Weighed :
      (formats : Formats) → Weighed (corroborate clock d now m res t (base_evidence formats m t)).ev
  unfolding corroborate ask_rail judge_outcome
  corroborate-Weighed formats =
      let ev = base_evidence formats m t in
      elim (Option-cases d.providers) [
        | inl e ↦ inl (rw (e, corroborate) (base_evidence-confidence formats m t))
        | inr (r, e) ↦ elim (Bool-cases (status_beq t.status orphaned)) [
          | inr f ↦ inl (rw (e, corroborate, f) (base_evidence-confidence formats m t))
          | inl f ↦ elim (query-cases clock r (ref_of t)) [
            | inl c ↦ inr (r, e, c)
            | inr u ↦
                let j : Judged = record {
                  memory = m;
                  res = res;
                  txn = t;
                  ev = ev;
                  decided = ok false;
                } in
                let detail = (query clock r (ref_of t)).detail in
                let k = with_signal j provider_unreachable detail weight_provider_unreached in
                inl (
                  rw (e, corroborate, f, u, judge_outcome)
                    (subst (λ (x : Evidence). confidence x ≤ 70)
                      (sym (
                        after_uncertain-ev k
                          (mark_uncertain clock m t.tenant_id t.transaction_id now)))
                      (weightless formats m t provider_unreachable detail)))
          ]
        ]
      ]
