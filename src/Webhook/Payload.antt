-- ===== src/Webhook/Payload.antt =====
-- internal/webhook/payload.go: what is sent to an endpoint. `EventType` is a text, an instant has
-- no time zone, and JSON encoding is not code of the repository.
use recon_sync.Common.{
  ℕ, Bool, true, false, Option, none, some, List, [], Text, ascii, if◌then◌else◌, text_beq, ℤ, pos,
  ltℤ, whole_seconds, sub_time,
}
use recon_sync.Domain.Transaction.{Transaction, window, shortfall_minor}
use recon_sync.Evidence.{Signal, Evidence, confidence, signals_of}

abbrev pub reversal_triggered : Text
reversal_triggered = ascii "reversal.triggered"

abbrev pub reversal_completed : Text
reversal_completed = ascii "reversal.completed"

abbrev pub reversal_failed_event : Text
reversal_failed_event = ascii "reversal.failed"

abbrev pub transaction_suspect : Text
transaction_suspect = ascii "transaction.suspect"

abbrev pub transaction_settled : Text
transaction_settled = ascii "transaction.reconciled"

abbrev pub sla_at_risk_event : Text
sla_at_risk_event = ascii "sla.at_risk"

abbrev pub integration_silent : Text
integration_silent = ascii "integration.silent"

abbrev pub integration_recovered : Text
integration_recovered = ascii "integration.recovered"

-- `Data`; a text or number that is left out of the encoding is empty or 0.
pub record EnvelopeData : Type 0 where
  pub transaction_id : Text
  pub amount_minor : ℤ
  pub currency : Text
  pub reason : Text
  pub credited_minor : ℤ
  pub outstanding_minor : ℤ
  pub debit_at : ℕ
  pub window_seconds : ℤ
  pub detected_at : Option ℕ
  pub regulatory_deadline : ℕ
  pub advisory : Bool
  pub confidence : ℕ
  pub evidence : List Signal
  pub deadline_seconds : Option ℤ
  pub drill : Bool

pub record Envelope : Type 0 where
  pub event : Text
  pub occurred_at : ℕ
  pub body : EnvelopeData

abbrev pub reason_for : Text → Text
reason_for event =
    if text_beq event reversal_triggered
    then ascii "no_credit_confirmation_within_window"
    else if text_beq event transaction_suspect
    then ascii "ambiguous_provider_response_within_window"
    else if text_beq event reversal_failed_event
    then ascii "reversal_webhook_delivery_exhausted"
    else []

unfoldable pub envelope_for : Text → Transaction → ℕ → Evidence → Envelope
envelope_for event t occurred_at ev =
    let partial = ltℤ (pos 0) t.credited_minor in
    record {
      event = event;
      occurred_at = occurred_at;
      body = record {
        transaction_id = t.transaction_id;
        amount_minor = t.amount_minor;
        currency = t.currency;
        reason =
            if partial
            then (if text_beq event reversal_triggered
                then ascii "partial_settlement_outstanding"
                else reason_for event)
            else reason_for event;
        credited_minor = t.credited_minor;
        outstanding_minor = if partial then shortfall_minor t else pos 0;
        debit_at = t.debit_at;
        window_seconds = whole_seconds (window t);
        detected_at = t.detected_at;
        regulatory_deadline = t.expected_completion_at;
        advisory = true;
        confidence = confidence ev;
        evidence = signals_of ev;
        deadline_seconds = none;
        drill = false;
      };
    }

pub record IntegrationData : Type 0 where
  pub tenant_id : Text
  pub reason : Text
  pub silent_since : ℕ
  pub silent_for : ℤ
  pub advisory : Bool
  pub actionable : Text
  pub detection_suspended : Bool

pub record IntegrationEnvelope : Type 0 where
  pub event : Text
  pub occurred_at : ℕ
  pub body : IntegrationData

unfoldable pub silence_envelope : Text → ℕ → ℕ → IntegrationEnvelope
silence_envelope tenant silent_since occurred_at = record {
  event = integration_silent;
  occurred_at = occurred_at;
  body = record {
    tenant_id = tenant;
    reason = ascii "no_events_received";
    silent_since = silent_since;
    silent_for = whole_seconds (sub_time occurred_at silent_since);
    advisory = true;
    actionable =
        ascii
          "check that your transaction service can still reach ReconSync; reconciliation is paused until events resume";
    detection_suspended = true;
  };
}

unfoldable pub recovery_envelope : Text → ℕ → ℕ → IntegrationEnvelope
recovery_envelope tenant silent_since occurred_at = record {
  event = integration_recovered;
  occurred_at = occurred_at;
  body = record {
    tenant_id = tenant;
    reason = ascii "events_resumed";
    silent_since = silent_since;
    silent_for = whole_seconds (sub_time occurred_at silent_since);
    advisory = true;
    actionable =
        ascii
          "reconciliation has resumed; transactions opened during the gap are being judged again";
    detection_suspended = false;
  };
}

unfoldable pub at_risk_envelope : Transaction → ℕ → ℕ → Envelope
unfolding envelope_for
at_risk_envelope t deadline_at occurred_at =
    let env = envelope_for sla_at_risk_event t occurred_at none in
    record env {
      body = record (env.body) {
        deadline_seconds = some (whole_seconds (sub_time deadline_at occurred_at));
        regulatory_deadline = deadline_at;
        reason = ascii "approaching_reversal_deadline";
        confidence = 0;
      };
    }
