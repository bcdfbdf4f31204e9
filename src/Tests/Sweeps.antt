-- ===== src/Tests/Sweeps.antt =====
-- The properties of the rail's answers and of the sweep.
use recon_sync.Common.{
  ◌≡◌, ◌↔◌, ◌⊎◌, inl, true, refl, Option, some, [], ◌∷◌, Text, ascii, lookup, text_eq, pair_eq, pos,
}
use recon_sync.Domain.Status.{orphaned, reversal_completed, transition, can_transition}
use recon_sync.Provider.{Outcome, conclusive, answered, Adapter, Registry, Ref, RailStatus, query}
use recon_sync.Provider.Answers.{Says, query-conclusive}
use recon_sync.Webhook.Payload.{Envelope, envelope_for, IntegrationEnvelope, reversal_triggered}
use recon_sync.Service.Detector.Verdict.{Detector, Formats, ref_of, below_confidence_floor}
use recon_sync.Service.Detector.Sweep.{Progress, no_result, sweep, sweep_one}
use recon_sync.Service.Detector.Frames.{Only}
use recon_sync.Service.Detector.Advice.{Justified, claims, sweep-Justified}
use recon_sync.Service.Detector.Offers.{Offers, Holds}
use recon_sync.Service.Detector.Queue.{subscribes}
use recon_sync.Service.Detector.Race.{sweep_one-settled}
use recon_sync.Tests.Data.{bank, tx1, endpoint, opened, holding, transfer}
use recon_sync.Tests.Chain.{digest}

abbrev arrived : RailStatus
arrived = record {
  outcome = Outcome.settled;
  provider = ascii "nip";
  reference = ascii "r1";
  observed_at = 40;
  detail = [];
}

abbrev nip : Adapter
nip = record { name = ascii "nip"; ask = λ ref. answered arrived }

abbrev rails : Registry
rails = (ascii "nip", nip) ∷ []

abbrev asked : Ref
asked = ref_of (transfer orphaned)

query-conclusive_example :
    ((o : Outcome)
      → conclusive o ≡ true
      → ((query 50 rails asked).outcome ≡ o) ↔ Says rails asked o)
    × ((conclusive (query 50 rails asked).outcome ≡ true)
        ⊎ ((query 50 rails asked).outcome ≡ Outcome.unknown))
query-conclusive_example = query-conclusive 50 rails asked

abbrev formats : Formats
formats = record {
  no_credit = λ n. [];
  part_credited = λ a b c. [];
  number = λ n. [];
  hundredths = λ n. n ∷ [];
  instant = λ n. n ∷ [];
}

abbrev marshal : Envelope → Option Text
marshal e = some e.event

abbrev marshal_alert : IntegrationEnvelope → Option Text
marshal_alert e = some e.event

abbrev detector : Detector
detector = record {
  batch = 500;
  silence = record { quiet = 0; baseline = 0; min_active_buckets = 0 };
  providers = some rails;
  deadline = 1_000;
  sla_warn_ahead = pos 100;
  min_confidence = 0;
}

sweep-Justified_example :
    Only
      (Justified digest formats marshal 50 50 detector 50
        (claims digest formats marshal 50 50 detector 50 marshal_alert opened))
      opened
      (sweep digest formats marshal 50 50 marshal_alert detector 50 opened).0
sweep-Justified_example =
    sweep-Justified digest formats marshal 50 50 detector 50 marshal_alert opened

-- The store already holds the reversal of the transfer as completed; the endpoints of the bank were
-- read before.
abbrev before : Progress
before = record {
  memory = holding (transfer reversal_completed);
  res = no_result;
  cache = (bank, endpoint ∷ []) ∷ [];
}

sweep_one-settled_example :
    Holds
      (Offers bank tx1 reversal_triggered (ascii "ep"))
      (sweep_one digest formats marshal 50 50 detector 50 before (transfer orphaned)).0.memory
unfolding query lookup transition can_transition below_confidence_floor envelope_for subscribes
sweep_one-settled_example =
    sweep_one-settled digest formats marshal 50 50 detector 50 before (transfer orphaned)
      (transfer reversal_completed) endpoint refl refl refl refl refl refl refl refl (inl refl) refl
