-- ===== src/Recorder/Kept.antt =====
-- No count is lost between the pipeline and the store, whatever writes fail.
use recon_sync.Common.{
  ℕ, ◌+◌, Bool, ◌≡◌, refl, ap, subst, Option, none, some, List, [], ◌∷◌, length, ◌==◌, if_cases,
  text_eq, nat_eq, pair_eq, arith,
}
use recon_sync.Pipeline.{Observation}
use recon_sync.Store.State.{Memory}
use recon_sync.Store.Health.{record_ingest_health}
use recon_sync.Recorder.{
  Bucket, Pending, Recorder, samples_of, restore, begin_as, end_as, begin_flush, end_flush, Runs,
  fresh, observes, begins, ends,
}
use recon_sync.Recorder.Whole.{Whole, restore-Whole, observe-Whole}
use recon_sync.Recorder.Counted.{
  Field, noted, in_flight_at, stored_at, total_at, Additive, restore-held_at,
  record_ingest_health-stored_at, observe-held_at,
}

module _ (field : Field) (add : Additive field) (k : Bucket) where
  -- The keys of what is pending and in flight are whole, and what was in the store at first and what
  -- was noted since is in the store, in flight or pending.
  abbrev pub Kept : Memory → List (ℕ × Observation) → Recorder → Type 0
  Kept m seen r =
      Whole r.pending
      × ((taken : Pending) → r.in_flight ≡ some taken → Whole taken)
      × (total_at field k r ≡ stored_at field k m + noted field k seen)

  noted_cons :
      (now : ℕ) (o : Observation) (seen : List (ℕ × Observation))
      → noted field k ((now, o) ∷ seen) ≡ noted field k ((now, o) ∷ []) + noted field k seen
  noted_cons now o seen = ground arith

  module _ (m : Memory) (seen : List (ℕ × Observation)) (r : Recorder) (kept : Kept m seen r) where
    begin_as-Kept : (t : Option Pending) → r.in_flight ≡ t → Kept m seen (begin_as t r)
    begin_as-Kept (some taken) e = kept
    begin_as-Kept none e =
        let q : Recorder = record r { pending = []; in_flight = some r.pending } in
        if_cases (Kept m seen) (length r.pending == 0) r q (λ f. kept)
          (λ f. (
            tt,
            λ taken h. subst Whole (ground arith) kept.0,
            omega (arith, kept.2, ap (in_flight_at field k) e),
          ))

    end_as-Kept :
        (written : Bool) (t : Option Pending) → r.in_flight ≡ t → Kept m seen (end_as written t r)
    end_as-Kept written none e = kept
    end_as-Kept written (some taken) e =
        let moved = ap (in_flight_at field k) e in
        let landed : Recorder = record r {
          in_flight = none;
          memory = record_ingest_health r.memory (samples_of taken);
        } in
        let back : Recorder = record r { in_flight = none; pending = restore taken r.pending } in
        let whole = kept.1 taken e in
        if_cases (Kept m seen) written landed back
          (λ ok. (
            kept.0,
            λ t h. absurd (cc),
            omega (
              arith,
              kept.2,
              moved,
              record_ingest_health-stored_at field add k taken r.memory whole,
            ),
          ))
          (λ failed. (
            restore-Whole taken r.pending whole kept.0,
            λ t h. absurd (cc),
            omega (arith, kept.2, moved, restore-held_at field add k taken r.pending),
          ))

  Runs-Kept :
      {m : Memory} {seen : List (ℕ × Observation)} {r : Recorder} → Runs m seen r → Kept m seen r
  unfolding begin_flush end_flush
  Runs-Kept fresh = (tt, λ taken h. absurd (cc), omega arith)
  Runs-Kept {m} (observes {seen} {r} runs now o) =
      let (whole, taken_whole, total) = Runs-Kept runs in
      (
        observe-Whole now o r.pending whole,
        taken_whole,
        omega (arith, total, observe-held_at field add k now o r.pending, noted_cons now o seen),
      )
  Runs-Kept {m} (begins {seen} {r} runs) = begin_as-Kept m seen r (Runs-Kept runs) r.in_flight refl
  Runs-Kept {m} (ends {seen} {r} runs written) =
      end_as-Kept m seen r (Runs-Kept runs) written r.in_flight refl

-- What the store holds, what a flush has in flight and what is pending make, for each tenant and
-- minute and each of the three counters, what the store held at first and what the pipeline reported
-- since: whatever is observed while a flush is in flight, and whichever flushes fail.
pub Runs-total_at :
    {m : Memory} {seen : List (ℕ × Observation)} {r : Recorder}
    → Runs m seen r
    → (k : Bucket)
    → (total_at (λ c. c.received) k r
        ≡ stored_at (λ c. c.received) k m + noted (λ c. c.received) k seen)
      × (total_at (λ c. c.dropped) k r
          ≡ stored_at (λ c. c.dropped) k m + noted (λ c. c.dropped) k seen)
      × (total_at (λ c. c.handler_errors) k r
          ≡ stored_at (λ c. c.handler_errors) k m + noted (λ c. c.handler_errors) k seen)
Runs-total_at runs k = (
  (Runs-Kept (λ c. c.received) (refl, λ a b. refl) k runs).2,
  (Runs-Kept (λ c. c.dropped) (refl, λ a b. refl) k runs).2,
  (Runs-Kept (λ c. c.handler_errors) (refl, λ a b. refl) k runs).2,
)
