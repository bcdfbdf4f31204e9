-- ===== src/Recorder/Gaps.antt =====
-- What the sweep sees of an event that was dropped.
use recon_sync.Common.{
  ℕ, ◌+◌, ◌≤◌, ◌<◌, true, ◌≡◌, ◌⊎◌, ap, inl, inr, none, some, List, [], ◌∷◌, Text, Dict, lookup,
  text_eq, nat_eq, pair_eq, pair_beq, arith, Bool-cases, Option-cases,
}
use recon_sync.Pipeline.{Observation}
use recon_sync.Store.State.{Memory, IngestSample}
use recon_sync.Store.Health.{truncate, has_ingest_gap, gap_in, sample_or_zero}
use recon_sync.Recorder.{Bucket, Recorder, Runs}
use recon_sync.Recorder.Counted.{Field, noted, stored_at, total_at, in_flight_at, held_at}
use recon_sync.Recorder.Kept.{Runs-total_at}

gap_in-lookup :
    (tenant : Text) (bucket lo hi : ℕ) (v : IngestSample) (health : Dict Bucket IngestSample)
    → lookup (tenant, bucket) health ≡ some v
    → lo ≤ bucket
    → bucket ≤ hi
    → (0 < v.dropped) ⊎ (0 < v.handler_errors)
    → gap_in tenant lo hi health ≡ true
unfolding lookup gap_in
gap_in-lookup tenant bucket lo hi v [] h a b lost = absurd (cc)
gap_in-lookup tenant bucket lo hi v (((owner, minute), w) ∷ health) h a b lost =
    elim (Bool-cases (pair_beq (owner, minute) (tenant, bucket))) [
      | inl e ↦ ground (arith, h, e, a, b, lost)
      | inr e ↦
          let later : lookup (tenant, bucket) health ≡ some v = ground (arith, h, e) in
          ground (arith, gap_in-lookup tenant bucket lo hi v health later a b lost)
    ]

-- With nothing pending or in flight, what was noted is in the store.
noted_stored :
    (field : Field) (k : Bucket) (r : Recorder)
    → r.pending ≡ []
    → r.in_flight ≡ none
    → (before noticed : ℕ) → total_at field k r ≡ before + noticed
    → noticed ≤ stored_at field k r.memory
noted_stored field k r empty idle before noticed total =
    omega (arith, total, ap (in_flight_at field k) idle, ap (held_at field k) empty)

-- Once nothing is pending or in flight, a drop or a failed batch that was reported of a tenant at
-- some time is a gap in the store for every window of the tenant that has the time in it.
pub Runs-has_ingest_gap :
    {m : Memory} {seen : List (ℕ × Observation)} {r : Recorder}
    → Runs m seen r
    → r.pending ≡ []
    → r.in_flight ≡ none
    → (tenant : Text) (at from to : ℕ)
    → (0 < noted (λ c. c.dropped) (tenant, truncate at) seen)
      ⊎ (0 < noted (λ c. c.handler_errors) (tenant, truncate at) seen)
    → from ≤ at
    → at ≤ to
    → has_ingest_gap r.memory tenant from to ≡ true
unfolding has_ingest_gap
Runs-has_ingest_gap {m} {seen} {r} runs empty idle tenant at from to lost a b =
    let k : Bucket = (tenant, truncate at) in
    let lo : truncate from ≤ truncate at = omega arith in
    let hi : truncate at ≤ truncate to = omega arith in
    let totals = Runs-total_at runs k in
    let dropped_there =
      noted_stored (λ c. c.dropped) k r empty idle (stored_at (λ c. c.dropped) k m)
        (noted (λ c. c.dropped) k seen) totals.1 in
    let failed_there =
      noted_stored (λ c. c.handler_errors) k r empty idle (stored_at (λ c. c.handler_errors) k m)
        (noted (λ c. c.handler_errors) k seen) totals.2 in
    elim (Option-cases (lookup k r.memory.health)) [
      | inl e ↦
          let d = ap (λ o. (sample_or_zero o).dropped) e in
          let f = ap (λ o. (sample_or_zero o).handler_errors) e in
          absurd (elim lost [
            | inl p ↦ omega (arith, d, dropped_there, p)
            | inr p ↦ omega (arith, f, failed_there, p)
          ])
      | inr (v, e) ↦
          let d = ap (λ o. (sample_or_zero o).dropped) e in
          let f = ap (λ o. (sample_or_zero o).handler_errors) e in
          gap_in-lookup tenant (truncate at) (truncate from) (truncate to) v r.memory.health e lo hi
            (elim lost [
              | inl p ↦ inl (omega (arith, d, dropped_there, p))
              | inr p ↦ inr (omega (arith, f, failed_there, p))
            ])
    ]
