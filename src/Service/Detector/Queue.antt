-- ===== src/Service/Detector/Queue.antt =====
-- internal/service/detector.go: `queue` and what is written on the audit chain. An error of the
-- audit chain is logged only.
use recon_sync.Common.{
  ℕ, ◌+◌, Bool, true, false, ◌&&◌, ◌||◌, Option, none, some, List, [], ◌∷◌, Text, ascii, length,
  ltb, ◌==◌, if◌then◌else◌, text_beq, whole_seconds,
}
use recon_sync.Domain.Status.{string}
use recon_sync.Domain.Errors.{Error, illegal, failure, Result, ok, err}
use recon_sync.Domain.Transaction.{
  Transaction, window, Fields, end, field, Value, object, array, text, scalar, Items, nil, cons,
}
use recon_sync.Audit.Chain.{Record, HashedContent}
use recon_sync.Evidence.{Signal, Evidence, confidence, signals_of}
use recon_sync.Store.State.{Memory, WebhookEndpoint}
use recon_sync.Store.Ledger.{append_audit}
use recon_sync.Store.Reversals.{mark_reversal_pending}
use recon_sync.Store.Webhooks.{PendingDelivery, enqueue_delivery}
use recon_sync.Webhook.Payload.{Envelope, envelope_for, reversal_triggered}
use recon_sync.Service.Detector.Verdict.{Formats}

abbrev pub listed_event : List Text → Text → Bool
listed_event [] event = false
listed_event (e ∷ events) event = text_beq e event || listed_event events event

unfoldable pub subscribes : WebhookEndpoint → Text → Bool
subscribes ep event = (length ep.events == 0) || listed_event ep.events event

-- The endpoint is not passed over.
abbrev pub takes : WebhookEndpoint → Text → Bool
takes ep event = ep.enabled && subscribes ep event

abbrev pub pending_for : Text → Text → Text → Text → WebhookEndpoint → PendingDelivery
pending_for tenant id event payload ep = record {
  tenant_id = tenant;
  endpoint_id = ep.id;
  transaction_id = id;
  event_type = event;
  payload = payload;
}

-- The loop over the endpoints: what was queued, and the error that ended it.
unfoldable pub queue_loop :
    ℕ → Text → Text → Text → Text → List WebhookEndpoint → Memory → ℕ → Memory × ℕ × Option Error
unfolding enqueue_delivery
queue_loop clock tenant id event payload [] m queued = (m, queued, none)
queue_loop clock tenant id event payload (ep ∷ eps) m queued = elim (takes ep event) [
  | false ↦ queue_loop clock tenant id event payload eps m queued
  | true ↦
      let (m', r) = enqueue_delivery clock m tenant (pending_for tenant id event payload ep) in
      elim r [
        | err e ↦ (m', queued, some e)
        | ok n ↦ queue_loop clock tenant id event payload eps m' (queued + 1)
      ]
]

-- An `InvalidTransitionError` of `MarkReversalPending` is tolerated, and no other error.
abbrev pub after_pending : ℕ → Memory × Result Transaction → Memory × ℕ × Option Error
after_pending queued (m, ok t) = (m, queued, none)
after_pending queued (m, err (illegal e)) = (m, queued, none)
after_pending queued (m, err e) = (m, queued, some e)

abbrev pub after_loop :
    ℕ → ℕ → Transaction → Text → Memory × ℕ × Option Error → Memory × ℕ × Option Error
after_loop clock at t event (m, queued, some e) = (m, queued, some e)
after_loop clock at t event (m, queued, none) =
    if ltb 0 queued && text_beq event reversal_triggered
    then after_pending queued (mark_reversal_pending clock m t.tenant_id t.transaction_id at)
    else (m, queued, none)

-- `webhook.Marshal` of an envelope.
module _ (marshal : Envelope → Option Text) where
  unfoldable pub queue :
      ℕ
      → ℕ
      → Memory
      → Transaction
      → Text
      → List WebhookEndpoint
      → Evidence
      → Memory × ℕ × Option Error
  unfolding queue_loop
  queue clock at m t event eps ev = elim (marshal (envelope_for event t at ev)) [
    | none ↦ (m, 0, some (failure (ascii "webhook: encode payload")))
    | some payload ↦
        after_loop clock at t event
          (queue_loop clock t.tenant_id t.transaction_id event payload eps m 0)
  ]

module _ (formats : Formats) where
  abbrev signal_value : Signal → Value
  signal_value s = object (
      field (ascii "signal") (text s.name) (
        field (ascii "value") (text s.value)
          (field (ascii "weight") (scalar (formats.number s.weight)) end)))

  abbrev signal_items : List Signal → Items
  signal_items [] = nil
  signal_items (s ∷ signals) = cons (signal_value s) (signal_items signals)

  abbrev verdict_payload : Transaction → Text → Evidence → Fields
  verdict_payload t event ev = field (ascii "verdict") (text (string t.status)) (
      field (ascii "event") (text event) (
        field (ascii "confidence") (scalar (formats.hundredths (confidence ev))) (
          field (ascii "evidence") (array (signal_items (signals_of ev))) (
            field (ascii "amount_minor") (scalar (formats.number t.amount_minor)) (
              field (ascii "currency") (text t.currency) (
                field (ascii "window_seconds") (scalar (formats.number (whole_seconds (window t))))
                  end))))))

abbrev pub by_sweep : Fields
by_sweep =
    field (ascii "type") (text (ascii "system"))
      (field (ascii "id") (text (ascii "detection-sweep")) end)

abbrev pub about : Text → Text → Fields
about kind id = field (ascii "type") (text kind) (field (ascii "id") (text id) end)

-- A record with what the store fills in left empty.
abbrev pub unplaced : Text → ℕ → Fields → Fields → Record
unplaced event at subject payload = record {
  id = 0;
  seq = 0;
  tenant_id = [];
  event_type = event;
  occurred_at = at;
  recorded_at = 0;
  actor = by_sweep;
  subject = subject;
  payload = payload;
  prev_hash = [];
  hash = [];
}

module _ (digest : HashedContent → Option Text) (formats : Formats) where
  unfoldable pub record_verdict : ℕ → ℕ → Memory → Transaction → Text → Evidence → Memory
  record_verdict clock at m t event ev =
      (append_audit digest clock m t.tenant_id (
        unplaced (ascii "transaction.detected") at (about (ascii "transaction") t.transaction_id)
          (verdict_payload formats t event ev))).0
