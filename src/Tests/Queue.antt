-- ===== src/Tests/Queue.antt =====
-- The properties of the delivery queue, on a queue of one delivery.
use recon_sync.Common.{
  ◌≡◌, ◌≤◌, refl, false, List, [], ◌∷◌, Text, lookup, length, All, map, text_eq, pair_eq, nat_eq,
  ◌=?◌, arith, ◌+◌,
}
use recon_sync.Domain.Status.{reversal_pending}
use recon_sync.Store.State.{Memory}
use recon_sync.Store.Webhooks.{
  Queued, due_deliveries, due_delivery, claim_due_deliveries, or_default, default_lease,
}
use recon_sync.Store.Webhooks.Lease.{DueEntry, LeasedTo, claim_due_deliveries-lease}
use recon_sync.Webhook.Decide.{response}
use recon_sync.Service.Dispatcher.{Try}
use recon_sync.Service.Dispatcher.Retries.{attempt_all, Ended, attempt_all-Ended}
use recon_sync.Service.Dispatcher.Failure.{Told, attempt_all-Told}
use recon_sync.Tests.Data.{transfer, holding, opened, delivery, key1}

claim_due_deliveries-lease_example :
    let es = due_deliveries opened 35 0 in
    let (m', out) = claim_due_deliveries opened 35 0 0 in
    (out ≡ map (λ (e : Queued). due_delivery opened e.1) es)
    × (length es ≤ or_default 0 100)
    × All (DueEntry opened 35) es
    × All (LeasedTo (35 + or_default 0 default_lease) m') es
    × All (λ (e : Queued). All (λ (f : Queued). (e.0 =? f.0) ≡ false) (due_deliveries m' 40 10)) es
unfolding lookup
claim_due_deliveries-lease_example =
    claim_due_deliveries-lease opened 35 0 0 40 10 (refl, tt) (omega arith)

-- The endpoint answers 503, or 400.
abbrev busy : Try
busy = record { answer = response 503 []; duration_ms = 7; now = 40; jitter = λ d. d }

abbrev refused : Try
refused = record { answer = response 400 []; duration_ms = 7; now = 40; jitter = λ d. d }

abbrev six : List (List Text × Try)
six = ([], busy) ∷ ([], busy) ∷ ([], busy) ∷ ([], busy) ∷ ([], busy) ∷ ([], busy) ∷ []

attempt_all-Ended_example : Ended 1 (attempt_all opened 1 six)
unfolding lookup
attempt_all-Ended_example =
    attempt_all-Ended opened 1 delivery six refl refl refl (omega arith) (omega arith)

-- The fourth answer is a refusal.
abbrev refusing : List (List Text × Try)
refusing = ([], busy) ∷ ([], busy) ∷ ([], busy) ∷ ([], refused) ∷ ([], busy) ∷ ([], busy) ∷ []

abbrev pending_reversal : Memory
pending_reversal = holding (transfer reversal_pending)

attempt_all-Told_example :
    Told 1 key1 (transfer reversal_pending) (attempt_all pending_reversal 1 refusing)
unfolding lookup
attempt_all-Told_example =
    attempt_all-Told pending_reversal 1 delivery (transfer reversal_pending) refusing refl refl refl
      refl (omega arith) (omega arith) refl refl
