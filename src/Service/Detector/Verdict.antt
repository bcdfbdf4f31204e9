-- ===== src/Service/Detector/Verdict.antt =====
-- internal/service/detector.go: the configuration, and what is made of one claimed transaction:
-- the evidence, the answer of the rail, the floor.
use recon_sync.Common.{
  ℕ, ◌+◌, Bool, true, false, not, ◌&&◌, Option, none, some, List, [], Text, ascii, ltb, ◌==◌,
  if◌then◌else◌, ℤ, pos, ltℤ, eqℤ, whole_seconds, ◌++◌, text_eq,
}
use recon_sync.Domain.Status.{suspect, orphaned, status_beq}
use recon_sync.Domain.Errors.{Error, not_found, illegal, Result, ok, err}
use recon_sync.Domain.Transaction.{Transaction, window, expected_credit}
use recon_sync.Evidence.{
  Evidence, new_evidence, add_signal, confidence, window_expired, ingest_intact, ingest_gap,
  provider_failed, provider_not_found, provider_unreachable, weight_window_expired,
  weight_ingest_intact, weight_ingest_gap, weight_provider_failed, weight_provider_not_found,
  weight_provider_unreached,
}
use recon_sync.Provider.{Outcome, Ref, RailStatus, Registry, query}
use recon_sync.Store.State.{Memory}
use recon_sync.Store.Health.{SilenceParams, has_ingest_gap}
use recon_sync.Store.Reversals.{mark_settled, mark_uncertain}

abbrev pub default_detect_batch : ℕ
default_detect_batch = 500

-- Nanoseconds.
abbrev pub default_quiet_period : ℕ
default_quiet_period = 300_000_000_000

abbrev pub default_baseline_period : ℕ
default_baseline_period = 3_600_000_000_000

abbrev pub default_min_active_buckets : ℕ
default_min_active_buckets = 10

abbrev pub default_reversal_deadline : ℕ
default_reversal_deadline = 86_400_000_000_000

abbrev pub default_sla_warn_before : ℤ
default_sla_warn_before = pos 14_400_000_000_000

-- `DetectorOptions`; a duration or number that is 0 stands for any that is not positive, but the
-- warning time may be negative. The floor is in hundredths, rounded up.
pub record DetectorOptions : Type 0 where
  pub batch : ℕ
  pub silence : Option SilenceParams
  pub min_reversal_confidence : ℕ
  pub reversal_deadline : ℕ
  pub sla_warn_before : ℤ
  pub providers : Option Registry

pub record Detector : Type 0 where
  pub batch : ℕ
  pub silence : SilenceParams
  pub providers : Option Registry
  pub deadline : ℕ
  pub sla_warn_ahead : ℤ
  pub min_confidence : ℕ

abbrev silence_or_default : Option SilenceParams → SilenceParams
silence_or_default (some p) = p
silence_or_default none = record {
  quiet = default_quiet_period;
  baseline = default_baseline_period;
  min_active_buckets = default_min_active_buckets;
}

-- `NewDetector`, for a store that is there.
unfoldable pub new_detector : DetectorOptions → Detector
new_detector opts = record {
  batch = if opts.batch == 0 then default_detect_batch else opts.batch;
  silence = silence_or_default opts.silence;
  providers = opts.providers;
  deadline =
      (if opts.reversal_deadline == 0 then default_reversal_deadline else opts.reversal_deadline);
  sla_warn_ahead =
      (if eqℤ opts.sla_warn_before (pos 0) then default_sla_warn_before else opts.sla_warn_before);
  min_confidence = opts.min_reversal_confidence;
}

pub record SweepResult : Type 0 where
  pub claimed : ℕ
  pub queued : ℕ
  pub suspect : ℕ
  pub no_target : ℕ
  pub silent_tenants : List Text
  pub silence_alerts : ℕ
  pub recovery_alerts : ℕ
  pub at_risk : ℕ
  pub below_confidence_floor : ℕ
  pub settled : ℕ
  pub corroborated : ℕ
  pub uncertain : ℕ

-- `fmt.Sprintf` for the two descriptions of a window, and what JSON makes of numbers and times.
pub record Formats : Type 0 where
  pub no_credit : ℤ → Text
  pub part_credited : ℤ → ℤ → ℤ → Text
  pub number : ℤ → Text
  pub hundredths : ℕ → Text
  pub instant : ℕ → Text

module _ (formats : Formats) where
  unfoldable pub base_evidence : Memory → Transaction → Evidence
  base_evidence m t =
      let seconds = whole_seconds (window t) in
      let detail =
        if ltℤ (pos 0) t.credited_minor
        then formats.part_credited t.credited_minor (expected_credit t) seconds
        else formats.no_credit seconds in
      let ev = add_signal new_evidence window_expired detail weight_window_expired in
      if has_ingest_gap m t.tenant_id t.debit_at t.expected_completion_at
      then add_signal ev ingest_gap (ascii "events were dropped over this window") weight_ingest_gap
      else add_signal ev ingest_intact (ascii "no events lost over this window")
          weight_ingest_intact

-- `tolerateRace`, without the words that it puts around an error.
abbrev pub tolerate_race : Error → Option Error
tolerate_race (illegal e) = none
tolerate_race not_found = none
tolerate_race e = some e

unfoldable pub below_confidence_floor : Detector → Evidence → Bool
below_confidence_floor d ev = ltb 0 d.min_confidence && ltb (confidence ev) d.min_confidence

-- What `corroborate` leaves and reports: `decided` is whether the transaction settled.
pub record Judged : Type 0 where
  pub memory : Memory
  pub res : SweepResult
  pub txn : Transaction
  pub ev : Evidence
  pub decided : Result Bool

abbrev pub after_race : Option Error → Result Bool
after_race none = ok false
after_race (some e) = err e

abbrev pub after_settle : Judged → Memory × Result Transaction → Judged
after_settle j (m, ok t) = record j {
  memory = m;
  res = record (j.res) { settled = j.res.settled + 1 };
  decided = ok true;
}
after_settle j (m, err e) = record j { memory = m; decided = after_race (tolerate_race e) }

abbrev pub after_uncertain : Judged → Memory × Result Transaction → Judged
after_uncertain j (m, ok t) = record j {
  memory = m;
  txn = record (j.txn) { status = suspect };
  res = record (j.res) { uncertain = j.res.uncertain + 1 };
}
after_uncertain j (m, err e) = record j { memory = m; decided = after_race (tolerate_race e) }

abbrev pub with_signal : Judged → Text → Text → ℤ → Judged
with_signal j name value weight = record j { ev = add_signal j.ev name value weight }

abbrev pub corroborated_by : Judged → Judged
corroborated_by j = record j { res = record (j.res) { corroborated = j.res.corroborated + 1 } }

abbrev pub not_found_by : Judged → RailStatus → Judged
not_found_by j s = corroborated_by (
    with_signal j provider_not_found (s.provider ++ ascii " has no record of this transaction")
      weight_provider_not_found)

-- The `switch` on the outcome.
unfoldable pub judge_outcome : ℕ → ℕ → Judged → RailStatus → Outcome → Judged
judge_outcome clock now j s Outcome.settled =
    after_settle j (mark_settled clock j.memory j.txn.tenant_id j.txn.transaction_id now)
judge_outcome clock now j s Outcome.unknown =
    after_uncertain (with_signal j provider_unreachable s.detail weight_provider_unreached)
      (mark_uncertain clock j.memory j.txn.tenant_id j.txn.transaction_id now)
judge_outcome clock now j s Outcome.failed = corroborated_by (
    with_signal j provider_failed (s.provider ++ ascii " reports the credit leg failed")
      weight_provider_failed)
judge_outcome clock now j s Outcome.not_found = not_found_by j s
judge_outcome clock now j s (Outcome.unrecognised t) = not_found_by j s

abbrev pub ref_of : Transaction → Ref
ref_of t = record {
  tenant_id = t.tenant_id;
  transaction_id = t.transaction_id;
  provider = t.provider;
  provider_ref = [];
  amount_minor = t.amount_minor;
  currency = t.currency;
}

unfoldable pub ask_rail : ℕ → ℕ → Registry → Judged → Judged
unfolding judge_outcome
ask_rail clock now registry j =
    let s = query clock registry (ref_of j.txn) in judge_outcome clock now j s s.outcome

unfoldable pub corroborate :
    ℕ → Detector → ℕ → Memory → SweepResult → Transaction → Evidence → Judged
unfolding ask_rail
corroborate clock d now m res t ev =
    let j : Judged = record { memory = m; res = res; txn = t; ev = ev; decided = ok false } in
    elim d.providers [
      | none ↦ j
      | some registry ↦
          if not (status_beq t.status orphaned) then j else ask_rail clock now registry j
    ]
