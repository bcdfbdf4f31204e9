-- ===== src/Store/Health.antt =====
-- internal/store/memory_health.go: the ingest counters of each minute, gaps and silence. The
-- counters are not bounded.
use recon_sync.Common.{
  ℕ, ◌+◌, ◌-◌, ◌*◌, ◌/◌, Bool, true, false, not, ◌&&◌, ◌||◌, Option, none, some, List, [], ◌∷◌,
  ◌++◌, Text, Dict, lookup, insert, delete, has, contains, if◌then◌else◌, ltb, leb, ◌==◌,
  sort_slice, text_eq, nat_eq, pair_eq, text_beq,
}
use recon_sync.Domain.Status.{text_less}
use recon_sync.Store.State.{Memory, IngestSample}

-- In nanoseconds.
abbrev pub minute : ℕ
minute = 60_000_000_000

-- `Truncate(time.Minute)`.
abbrev pub truncate : ℕ → ℕ
truncate t = t / minute * minute

abbrev pub no_sample : IngestSample
no_sample = record { tenant_id = []; bucket = 0; received = 0; dropped = 0; handler_errors = 0 }

-- `m.health[key]`, with the zero value for a missing key.
abbrev pub sample_or_zero : Option IngestSample → IngestSample
sample_or_zero none = no_sample
sample_or_zero (some s) = s

-- One turn of the loop of `RecordIngestHealth`.
unfoldable pub add_sample : Memory → IngestSample → Memory
add_sample m s =
    let key : Text × ℕ = (s.tenant_id, truncate s.bucket) in
    let cur = sample_or_zero (lookup key m.health) in
    let cur' = record cur {
      received = cur.received + s.received;
      dropped = cur.dropped + s.dropped;
      handler_errors = cur.handler_errors + s.handler_errors;
    } in
    record m { health = insert key cur' m.health }

unfoldable pub record_ingest_health : Memory → List IngestSample → Memory
unfolding add_sample
record_ingest_health m [] = m
record_ingest_health m (s ∷ samples) = record_ingest_health (add_sample m s) samples

-- The loop of `hasGapLocked` over the counters.
unfoldable pub gap_in : Text → ℕ → ℕ → Dict (Text × ℕ) IngestSample → Bool
gap_in tenant lo hi [] = false
gap_in tenant lo hi (((owner, bucket), v) ∷ health) =
    let rest = gap_in tenant lo hi health in
    if not (text_beq owner tenant)
    then rest
    else if ltb bucket lo || ltb hi bucket
    then rest
    else if ltb 0 v.dropped || ltb 0 v.handler_errors
    then true
    else rest

unfoldable pub has_ingest_gap : Memory → Text → ℕ → ℕ → Bool
unfolding gap_in
has_ingest_gap m tenant from to = gap_in tenant (truncate from) (truncate to) m.health

pub record SilenceParams : Type 0 where
  pub quiet : ℕ
  pub baseline : ℕ
  pub min_active_buckets : ℕ

abbrev pub is_disabled : SilenceParams → Bool
is_disabled p = p.quiet == 0 || (p.baseline == 0 || p.min_active_buckets == 0)

abbrev count_or_zero : Option ℕ → ℕ
count_or_zero none = 0
count_or_zero (some n) = n

-- The loop of `SilentTenants`: minutes with events by tenant, and the tenants seen lately.
unfoldable pub tally :
    ℕ → ℕ → Dict Text ℕ × List Text → Dict (Text × ℕ) IngestSample → Dict Text ℕ × List Text
tally quiet_from baseline_from s [] = s
tally quiet_from baseline_from (active, recent) (((owner, bucket), v) ∷ health) =
    tally quiet_from baseline_from
      (if v.received == 0
        then (active, recent)
        else if leb quiet_from bucket
        then (active, owner ∷ recent)
        else if leb baseline_from bucket
        then (insert owner (count_or_zero (lookup owner active) + 1) active, recent)
        else (active, recent))
      health

unfoldable pub silent_of : ℕ → List Text → Dict Text ℕ → List Text
silent_of least recent [] = []
silent_of least recent ((tenant, buckets) ∷ active) =
    let rest = silent_of least recent active in
    if leb least buckets && not (contains recent tenant) then tenant ∷ rest else rest

unfoldable pub silent_tenants : Memory → ℕ → SilenceParams → List Text
unfolding tally silent_of
silent_tenants m now p =
    if is_disabled p
    then []
    else let quiet_from = truncate (now - p.quiet) in
      let seen = tally quiet_from (quiet_from - p.baseline) ([], []) m.health in
      sort_slice text_less (silent_of p.min_active_buckets seen.1 seen.0)

pub record SilenceEpisode : Type 0 where
  pub tenant_id : Text
  pub silent_since : ℕ

pub record SilenceChange : Type 0 where
  pub opened : List SilenceEpisode
  pub recovered : List SilenceEpisode

-- The loop of `silentSinceLocked`.
unfoldable pub last_event : Text → ℕ → Dict (Text × ℕ) IngestSample → ℕ
last_event tenant last [] = last
last_event tenant last (((owner, bucket), v) ∷ health) =
    last_event tenant
      (if not (text_beq owner tenant) || v.received == 0
        then last
        else if ltb last bucket
        then bucket
        else last)
      health

unfoldable pub silent_since : Memory → Text → ℕ → ℕ
unfolding last_event
silent_since m tenant now =
    let last = last_event tenant 0 m.health in if last == 0 then now else last + minute

-- One turn of the first loop of `SyncSilenceEpisodes`.
unfoldable pub open_one : Memory → ℕ → Text → List SilenceEpisode → Memory × List SilenceEpisode
open_one m now id opened = if has id m.silence then (m, opened) else (
  record m { silence = insert id (silent_since m id now) m.silence },
  opened ++ record { tenant_id = id; silent_since = silent_since m id now } ∷ [],
)

unfoldable pub open_episodes :
    Memory → ℕ → List Text → List SilenceEpisode → Memory × List SilenceEpisode
unfolding open_one
open_episodes m now [] opened = (m, opened)
open_episodes m now (id ∷ silent) opened =
    open_episodes (open_one m now id opened).0 now silent (open_one m now id opened).1

-- The second loop, over the open episodes: those that end, and those that stay.
unfoldable pub close_episodes :
    List Text → Dict Text ℕ → Dict Text ℕ → Dict Text ℕ × List SilenceEpisode
close_episodes still [] kept = (kept, [])
close_episodes still ((id, since) ∷ episodes) kept =
    let rest = close_episodes still episodes (if contains still id then kept else delete id kept) in
    if contains still id
    then rest
    else (rest.0, record { tenant_id = id; silent_since = since } ∷ rest.1)

abbrev by_tenant_id : SilenceEpisode → SilenceEpisode → Bool
by_tenant_id a b = text_less a.tenant_id b.tenant_id

unfoldable pub sync_silence_episodes : Memory → List Text → ℕ → Memory × SilenceChange
unfolding open_episodes close_episodes
sync_silence_episodes m silent now =
    let (m', opened) = open_episodes m now silent [] in
    let (kept, recovered) = close_episodes silent m'.silence m'.silence in
    (
      record m' { silence = kept },
      record {
        opened = sort_slice by_tenant_id opened;
        recovered = sort_slice by_tenant_id recovered;
      },
    )

pub record IngestActivitySummary : Type 0 where
  pub received : ℕ
  pub active_buckets : ℕ

unfoldable pub activity_in : Text → ℕ → ℕ → Dict (Text × ℕ) IngestSample → IngestActivitySummary
activity_in tenant lo hi [] = record { received = 0; active_buckets = 0 }
activity_in tenant lo hi (((owner, bucket), v) ∷ health) =
    let rest = activity_in tenant lo hi health in
    if not (text_beq owner tenant) || (ltb bucket lo || ltb hi bucket) then rest else record {
      received = rest.received + v.received;
      active_buckets = if ltb 0 v.received then rest.active_buckets + 1 else rest.active_buckets;
    }

unfoldable pub ingest_activity : Memory → Text → ℕ → ℕ → IngestActivitySummary
unfolding activity_in
ingest_activity m tenant from to = activity_in tenant (truncate from) (truncate to) m.health
