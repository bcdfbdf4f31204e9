-- ===== src/Store/Calls.antt =====
-- The methods on transactions, parked credits and health as values, and a run of them: what a
-- process, or several that share a store, do one call after another.
use recon_sync.Common.{ℕ, List, [], ◌∷◌, Text}
use recon_sync.Domain.Status.{Status}
use recon_sync.Domain.Transaction.{Transaction, CreditEvent}
use recon_sync.Store.State.{Memory, IngestSample}
use recon_sync.Store.Debits.{upsert_debits}
use recon_sync.Store.Credits.{apply_credit, apply_partial_credit}
use recon_sync.Store.Reversals.{mark_reversal}
use recon_sync.Store.Parking.{park_credit, delete_parked_credit}
use recon_sync.Store.Health.{record_ingest_health, sync_silence_episodes}
use recon_sync.Store.Expiry.{claim_expired, claim_sla_at_risk}

pub data Call : Type 0 where
  upsert : Text → List Transaction → Call
  credit : Text → Text → Status → ℕ → Call
  partial_credit : Text → CreditEvent → Call
  mark : Text → Text → Status → ℕ → Call
  park : Text → CreditEvent → Call
  unpark : Text → Text → Call
  claim : ℕ → ℕ → List Text → Call
  warn : ℕ → ℕ → ℕ → ℕ → Call
  health : List IngestSample → Call
  silence : List Text → ℕ → Call

-- One call, with the clock that it reads.
unfoldable pub exec : ℕ → Memory → Call → Memory
exec clock m (upsert tenant txns) = (upsert_debits clock m tenant txns).0
exec clock m (credit tenant id target at) = (apply_credit clock m tenant id target at).0
exec clock m (partial_credit tenant c) = (apply_partial_credit clock m tenant c).0
exec clock m (mark tenant id target at) = (mark_reversal clock m tenant id target at).0
exec clock m (park tenant c) = (park_credit m tenant c).0
exec clock m (unpark tenant id) = delete_parked_credit m tenant id
exec clock m (claim now limit skip) = (claim_expired m now limit skip).0
exec clock m (warn now deadline ahead limit) = (claim_sla_at_risk m now deadline ahead limit).0
exec clock m (health samples) = record_ingest_health m samples
exec clock m (silence tenants now) = (sync_silence_episodes m tenants now).0

unfoldable pub run : Memory → List (ℕ × Call) → Memory
run m [] = m
run m ((clock, c) ∷ calls) = run (exec clock m c) calls
