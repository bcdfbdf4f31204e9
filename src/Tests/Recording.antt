-- ===== src/Tests/Recording.antt =====
-- The properties of the ingest counters.
use recon_sync.Common.{
  ℕ, ◌+◌, ◌≡◌, refl, true, false, List, [], ◌∷◌, lookup, insert, text_eq, nat_eq, pair_eq, arith,
  inl,
}
use recon_sync.Pipeline.{Observation, accepted, dropped}
use recon_sync.Store.State.{new_memory}
use recon_sync.Store.Health.{has_ingest_gap, minute}
use recon_sync.Recorder.{
  Recorder, Runs, new_recorder, observe, bump, begin_flush, end_flush, restore, fresh, observes,
  begins, ends,
}
use recon_sync.Recorder.Counted.{total_at, stored_at, noted}
use recon_sync.Recorder.Kept.{Runs-total_at}
use recon_sync.Recorder.Gaps.{Runs-has_ingest_gap}
use recon_sync.Tests.Data.{bank}

abbrev seen : List (ℕ × Observation)
seen = (minute, accepted bank) ∷ (minute + 5, dropped bank) ∷ []

-- A drop is noted, a flush takes it, an event is accepted meanwhile, the flush fails.
abbrev taken : Recorder
taken =
    begin_flush
      (record (new_recorder new_memory) { pending = observe (minute + 5) (dropped bank) [] })

abbrev failed : Recorder
failed = end_flush false (record taken { pending = observe minute (accepted bank) taken.pending })

abbrev failed_runs : Runs new_memory seen failed
failed_runs =
    ends (observes (begins (observes fresh (minute + 5) (dropped bank))) minute (accepted bank))
      false

Runs-total_at_example :
    (total_at (λ c. c.received) (bank, minute) failed
      ≡ stored_at (λ c. c.received) (bank, minute) new_memory
        + noted (λ c. c.received) (bank, minute) seen)
    × (total_at (λ c. c.dropped) (bank, minute) failed
        ≡ stored_at (λ c. c.dropped) (bank, minute) new_memory
          + noted (λ c. c.dropped) (bank, minute) seen)
    × (total_at (λ c. c.handler_errors) (bank, minute) failed
        ≡ stored_at (λ c. c.handler_errors) (bank, minute) new_memory
          + noted (λ c. c.handler_errors) (bank, minute) seen)
Runs-total_at_example = Runs-total_at failed_runs (bank, minute)

-- The next flush is written.
abbrev written : Recorder
written = end_flush true (begin_flush failed)

Runs-has_ingest_gap_example : has_ingest_gap written.memory bank 30 (minute + 40) ≡ true
unfolding begin_flush end_flush observe bump restore insert lookup
Runs-has_ingest_gap_example =
    Runs-has_ingest_gap (ends (begins failed_runs) true) refl refl bank (minute + 7) 30
      (minute + 40) (inl (omega arith)) (omega arith) (omega arith)
