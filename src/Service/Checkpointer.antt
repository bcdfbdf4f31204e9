-- ===== src/Service/Checkpointer.antt =====
-- internal/service/checkpointer.go: the worker that signs the head of every chain. The clock is an
-- argument; the ticker that calls `Checkpoint` and the log are left out.
pub mod Tenant
pub mod Looked
pub mod Rounds
use recon_sync.Common.{
  ℕ, ◌+◌, ◌*◌, ◌^◌, Bool, true, false, not, Option, none, some, List, [], ◌∷◌, Text, ascii, length,
  leb, ltb, ◌==◌, if◌then◌else◌,
}
use recon_sync.Domain.Errors.{
  Error, validation, sensitive, unknown_credit_status, empty_event, not_found, tenant_mismatch,
  illegal, failure, Result, ok, err,
}
use recon_sync.Audit.Chain.{Record, HashedContent, Verification, last_record, verify_chain}
use recon_sync.Audit.Checkpoint.{Checkpoint, Crypto, sign_checkpoint}
use recon_sync.Store.State.{Memory}
use recon_sync.Store.Ledger.{list_audit}
use recon_sync.Store.Checkpoints.{latest_checkpoint, save_checkpoint, tenants_with_audit}

-- Nanoseconds in an hour.
abbrev pub default_checkpoint_interval : ℕ
default_checkpoint_interval = 3_600_000_000_000

-- `Checkpointer`: its signer's key and its interval.
pub record Checkpointer : Type 0 where
  pub signer : Text
  pub interval : ℕ

abbrev pub new_checkpointer : Bool → Option Text → ℕ → Result Checkpointer
new_checkpointer false signer interval = err (failure (ascii "service: store is required"))
new_checkpointer true none interval =
    err (failure (ascii "audit: no checkpoint signing key configured"))
new_checkpointer true (some key) interval = ok (record {
  signer = key;
  interval = if interval == 0 then default_checkpoint_interval else interval;
})

pub record CheckpointResult : Type 0 where
  pub tenants : ℕ
  pub signed : ℕ

module _ (digest : HashedContent → Option Text) (crypto : Crypto) (signer : Text) (now : ℕ) where
  abbrev pub head_of : Text → Verification → Record → Checkpoint
  head_of tenant v head = record {
    tenant_id = tenant;
    seq = head.seq;
    hash = v.last_hash;
    taken_at = now;
    signature = [];
    public_key = [];
  }

  unfoldable pub sign_and_save : Memory → Checkpoint → Memory × Result Bool
  sign_and_save m c = elim (sign_checkpoint crypto signer c) [
    | err e ↦ (m, err e)
    | ok signed ↦ (save_checkpoint m signed, ok true)
  ]

  -- What follows the look at the latest checkpoint.
  unfoldable pub sign_newer : Memory → Checkpoint → Result Checkpoint → Memory × Result Bool
  unfolding sign_and_save
  sign_newer m c (ok latest) = if leb c.seq latest.seq then (m, ok false) else sign_and_save m c
  sign_newer m c (err not_found) = sign_and_save m c
  sign_newer m c (err e) = (m, err e)

  unfoldable pub sign_records : Memory → Text → List Record → Memory × Result Bool
  unfolding sign_newer
  sign_records m tenant [] = (m, ok false)
  sign_records m tenant (r ∷ rs) =
      let v = verify_chain digest tenant (r ∷ rs) in
      if not v.verified
      then (m, err (failure (ascii "chain is broken, refusing to sign it")))
      else sign_newer m (head_of tenant v (last_record r rs)) (latest_checkpoint m tenant)

  unfoldable pub checkpoint_tenant : Memory → Text → Memory × Result Bool
  unfolding sign_records
  checkpoint_tenant m tenant = sign_records m tenant (list_audit m tenant 0)

  abbrev pub counted_signed : Result Bool → ℕ
  counted_signed (ok true) = 1
  counted_signed (ok false) = 0
  counted_signed (err e) = 0

  -- The loop over the tenants: an error is logged, and the loop goes on.
  unfoldable pub checkpoint_loop : List Text → Memory → ℕ → Memory × ℕ
  unfolding checkpoint_tenant
  checkpoint_loop [] m signed = (m, signed)
  checkpoint_loop (tenant ∷ tenants) m signed =
      let (m', result) = checkpoint_tenant m tenant in
      checkpoint_loop tenants m' (signed + counted_signed result)

  unfoldable pub checkpoint : Memory → Memory × CheckpointResult
  unfolding checkpoint_loop
  checkpoint m =
      let tenants = tenants_with_audit m in
      let (m', signed) = checkpoint_loop tenants m 0 in
      (m', record { tenants = length tenants; signed = signed })
