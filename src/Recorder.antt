-- ===== src/Recorder.antt =====
-- internal/health/recorder.go: the counters of each tenant's minutes, kept in memory and written to
-- the store from time to time. The ticker is the order of the steps; a store that reports an error
-- has written nothing; counters are not bounded.
pub mod Whole
pub mod Counted
pub mod Kept
pub mod Gaps
use recon_sync.Common.{
  ℕ, ◌+◌, Bool, true, false, Option, none, some, List, [], ◌∷◌, Text, Dict, lookup, insert, length,
  ◌==◌, if◌then◌else◌, text_eq, nat_eq, pair_eq,
}
use recon_sync.Pipeline.{Observation, accepted, dropped, batch_failed}
use recon_sync.Store.State.{Memory, IngestSample}
use recon_sync.Store.Health.{truncate, record_ingest_health}

-- Nanoseconds.
abbrev pub default_record_interval : ℕ
default_record_interval = 5_000_000_000

pub record Counts : Type 0 where
  pub received : ℕ
  pub dropped : ℕ
  pub handler_errors : ℕ

-- `key`: a tenant and a minute.
abbrev pub Bucket : Type 0
Bucket = Text × ℕ

abbrev pub Pending : Type 0
Pending = Dict Bucket Counts

-- `Recorder` with what its `Flush` has taken and not yet written, and the store.
pub record Recorder : Type 0 where
  pub pending : Pending
  pub in_flight : Option Pending
  pub memory : Memory

abbrev pub new_recorder : Memory → Recorder
new_recorder m = record { pending = []; in_flight = none; memory = m }

abbrev pub counts_or_zero : Option Counts → Counts
counts_or_zero none = record { received = 0; dropped = 0; handler_errors = 0 }
counts_or_zero (some c) = c

unfoldable pub bump : ℕ → Text → (Counts → Counts) → Pending → Pending
bump now tenant f pending =
    if length tenant == 0
    then pending
    else let k : Bucket = (tenant, truncate now) in
      insert k (f (counts_or_zero (lookup k pending))) pending

-- `Accepted`, `Dropped` and `BatchFailed`.
unfoldable pub observe : ℕ → Observation → Pending → Pending
unfolding bump
observe now (accepted tenant) pending =
    bump now tenant (λ c. record c { received = c.received + 1 }) pending
observe now (dropped tenant) pending =
    bump now tenant (λ c. record c { dropped = c.dropped + 1 }) pending
observe now (batch_failed tenant events) pending =
    if events == 0
    then pending
    else bump now tenant (λ c. record c { handler_errors = c.handler_errors + events }) pending

abbrev pub samples_of : Pending → List IngestSample
samples_of [] = []
samples_of ((k, c) ∷ pending) =
    record {
      tenant_id = k.0;
      bucket = k.1;
      received = c.received;
      dropped = c.dropped;
      handler_errors = c.handler_errors;
    }
    ∷ samples_of pending

abbrev pub merged : Option Counts → Counts → Counts
merged none c = c
merged (some existing) c = record {
  received = existing.received + c.received;
  dropped = existing.dropped + c.dropped;
  handler_errors = existing.handler_errors + c.handler_errors;
}

unfoldable pub restore : Pending → Pending → Pending
restore [] pending = pending
restore ((k, c) ∷ taken) pending = restore taken (insert k (merged (lookup k pending) c) pending)

-- `Flush` up to the write. One flush runs at a time.
abbrev pub begin_as : Option Pending → Recorder → Recorder
begin_as (some taken) r = r
begin_as none r =
    if length r.pending == 0 then r else record r { pending = []; in_flight = some r.pending }

unfoldable pub begin_flush : Recorder → Recorder
begin_flush r = begin_as r.in_flight r

-- `Flush` from the write on; whether the store wrote.
abbrev pub end_as : Bool → Option Pending → Recorder → Recorder
end_as written none r = r
end_as written (some taken) r =
    if written
    then record r { in_flight = none; memory = record_ingest_health r.memory (samples_of taken) }
    else record r { in_flight = none; pending = restore taken r.pending }

unfoldable pub end_flush : Bool → Recorder → Recorder
end_flush written r = end_as written r.in_flight r

-- What happened to a recorder that began with the store, the observations newest first: events
-- are observed at any time, a flush in flight or not.
pub data Runs (m : Memory) : List (ℕ × Observation) → Recorder → Type 0 where
  fresh : Runs m [] (new_recorder m)
  observes :
      {seen : List (ℕ × Observation)} {r : Recorder}
      → Runs m seen r
      → (now : ℕ) (o : Observation)
      → Runs m ((now, o) ∷ seen) (record r { pending = observe now o r.pending })
  begins :
      {seen : List (ℕ × Observation)} {r : Recorder} → Runs m seen r → Runs m seen (begin_flush r)
  ends :
      {seen : List (ℕ × Observation)} {r : Recorder}
      → Runs m seen r
      → (written : Bool) → Runs m seen (end_flush written r)
