-- ===== src/Webhook/Decide.antt =====
-- internal/webhook/dispatcher.go: the result of one attempt to deliver, and `Decide`. What the
-- network answers is an argument.
use recon_sync.Common.{
  ℕ, ◌+◌, Bool, false, not, ◌&&◌, ◌||◌, Option, none, some, [], Text, ascii, leb, ltb,
  if◌then◌else◌, take,
}
use recon_sync.Webhook.Retry.{should_retry, next_retry_at, retryable_status}

-- `DeliveryStatus`, a Go string.
abbrev pub pending : Text
pending = ascii "pending"

abbrev pub delivered : Text
delivered = ascii "delivered"

abbrev pub failed : Text
failed = ascii "failed"

abbrev pub dead_letter : Text
dead_letter = ascii "dead_letter"

pub record AttemptResult : Type 0 where
  pub delivered : Bool
  pub status_code : ℕ
  pub response_body : Text
  pub duration_ms : ℕ
  pub retryable : Bool

-- `maxResponseBody`.
abbrev pub max_response_body : ℕ
max_response_body = 1_024

-- What the request comes to: it cannot be built, or `client.Do` gives a status and a body, or an
-- error, which is or is not that of a blocked private address.
pub data Answer : Type 0 where
  bad_request : Answer
  response : ℕ → Text → Answer
  transport_error : Bool → Answer

-- The end of `Send`, from what the network answered.
unfoldable pub send_result : Answer → ℕ → AttemptResult
unfolding retryable_status
send_result bad_request ms = record {
  delivered = false;
  status_code = 0;
  response_body = [];
  duration_ms = 0;
  retryable = false;
}
send_result (response code body) ms = record {
  delivered = leb 200 code && ltb code 300;
  status_code = code;
  response_body = take max_response_body body;
  duration_ms = ms;
  retryable = retryable_status code;
}
send_result (transport_error private_address) ms = record {
  delivered = false;
  status_code = 0;
  response_body = [];
  duration_ms = ms;
  retryable = not private_address;
}

pub record AttemptOutcome : Type 0 where
  pub status : Text
  pub next_retry_at : Option ℕ

unfoldable pub decide : (ℕ → ℕ) → ℕ → AttemptResult → ℕ → AttemptOutcome
unfolding should_retry
decide jitter attempt res now =
    if res.delivered
    then record { status = delivered; next_retry_at = none }
    else if not res.retryable || not (should_retry attempt)
    then record { status = dead_letter; next_retry_at = none }
    else record { status = pending; next_retry_at = some (next_retry_at jitter now (attempt + 1)) }
