-- ===== src/Tests/Signing.antt =====
-- The properties of the checkpoints, with a signature that shows its key and its message.
use recon_sync.Common.{
  ℕ, zero, suc, ◌≡◌, ◌≤◌, ◌↔◌, refl, true, none, some, [], ◌∷◌, ◌++◌, Text, lookup, insert, text_eq,
  text_beq, text_beq_iff, take, length-append, length-take, arith,
}
use recon_sync.Domain.Errors.{ok}
use recon_sync.Audit.Chain.{content, compute_hash, verify_chain}
use recon_sync.Audit.Checkpoint.{
  Checkpoint, Crypto, signed_content, sign_checkpoint, signer_public_key, verify_checkpoint,
  verify_against_checkpoint, new_signer, decode_key,
}
use recon_sync.Audit.Checkpoint.Anchor.{
  Sound, Reaches, sign_checkpoint-verify_checkpoint, verify_against_checkpoint_iff,
}
use recon_sync.Store.State.{Memory}
use recon_sync.Store.Ledger.{append_audit}
use recon_sync.Store.Checkpoints.{save_checkpoint, latest_checkpoint}
use recon_sync.Store.Checkpoints.Anchored.{
  Anchored, append_audit-Anchored, save_checkpoint-Anchored,
}
use recon_sync.Service.Checkpointer.{checkpoint, checkpoint_tenant}
use recon_sync.Service.Checkpointer.Looked.{checkpoint_tenant_stops}
use recon_sync.Service.Checkpointer.Rounds.{checkpoint-Anchored, checkpoint-latest}
use recon_sync.Tests.Data.{bank, opened}
use recon_sync.Tests.Chain.{digest, entry, chain}

abbrev zeros : ℕ → Text
zeros zero = []
zeros (suc n) = 0 ∷ zeros n

-- The public key is the first half of the private key.
abbrev toy : Crypto
toy = record {
  encode = λ c. some (c.seq ∷ c.hash);
  base64 = λ t. t;
  unbase64 = λ t. some t;
  unhex = λ t. none;
  from_seed = λ s. s ++ s;
  public_part = λ k. take 32 k;
  sign = λ k m. take 32 k ++ m;
  verify = λ k m s. text_beq s (k ++ m);
}

toy-Sound : Sound toy
toy-Sound = record {
  decodes = λ t. refl;
  accepts = λ s m n. (text_beq_iff (take 32 (s ++ s) ++ m) (take 32 (s ++ s) ++ m)).1 refl;
  seeded = λ s h. omega (arith, length-append s s);
  sized = λ k h. length-take 32 k (omega arith);
}

abbrev key : Text
key = zeros 64

abbrev public_key : Text
public_key = zeros 32

abbrev head : Checkpoint
head = record {
  tenant_id = bank;
  seq = 2;
  hash = 2 ∷ [];
  taken_at = 7_000;
  signature = [];
  public_key = [];
}

abbrev signed_head : Checkpoint
signed_head = record head { signature = zeros 32 ++ 2 ∷ 2 ∷ []; public_key = public_key }

sign_checkpoint-verify_checkpoint_example :
    (s : Checkpoint) × (sign_checkpoint toy key head ≡ ok s)
    × (s.public_key ≡ signer_public_key toy key)
    × (signed_content s ≡ signed_content head)
    × (verify_checkpoint toy s (signer_public_key toy key) ≡ none)
unfolding new_signer decode_key
sign_checkpoint-verify_checkpoint_example =
    sign_checkpoint-verify_checkpoint toy toy-Sound (zeros 32) head refl
      (λ h. absurd (omega (arith, h))) refl refl

verify_against_checkpoint_iff_example :
    ((verify_against_checkpoint digest toy chain signed_head public_key).matches ≡ true)
    ↔ ((verify_checkpoint toy signed_head public_key ≡ none) × Reaches 2 (2 ∷ []) chain)
unfolding verify_chain compute_hash content
verify_against_checkpoint_iff_example =
    verify_against_checkpoint_iff digest toy bank chain signed_head public_key refl (omega arith)

abbrev audited : Memory
audited = record opened { audit = (bank, chain) ∷ [] }

abbrev anchored : Memory
anchored = save_checkpoint audited signed_head

anchored-Anchored : Anchored toy public_key anchored
unfolding verify_checkpoint lookup
anchored-Anchored =
    save_checkpoint-Anchored toy public_key audited signed_head (λ tenant. tt)
      (refl, (omega arith, omega arith, refl))

append_audit-Anchored_example :
    Anchored toy public_key (append_audit digest 9 anchored bank (entry 0 [])).0
append_audit-Anchored_example =
    append_audit-Anchored toy public_key digest 9 anchored bank (entry 0 []) anchored-Anchored

checkpoint-Anchored_example :
    Anchored toy (signer_public_key toy key) (checkpoint digest toy key 5 audited).0
unfolding lookup
checkpoint-Anchored_example =
    checkpoint-Anchored digest toy key 5 toy-Sound (zeros 32, refl, refl) audited (λ tenant. tt)

checkpoint-latest_example :
    (c : Checkpoint) × (latest_checkpoint (checkpoint digest toy key 5 audited).0 bank ≡ ok c)
    × (2 ≤ c.seq)
unfolding lookup verify_chain compute_hash content
checkpoint-latest_example =
    checkpoint-latest digest toy key 5 audited bank (entry 1 []) (entry 2 (1 ∷ []) ∷ [])
      (λ c. (c.seq ∷ c.hash, refl)) refl refl

-- A checkpoint at the thousandth record.
abbrev late_head : Checkpoint
late_head = record signed_head { seq = 1_000 }

abbrev stopped : Memory
stopped = save_checkpoint audited late_head

checkpoint_tenant_stops_example : (checkpoint_tenant digest toy key 5 stopped bank).0 ≡ stopped
unfolding latest_checkpoint save_checkpoint lookup insert
checkpoint_tenant_stops_example =
    checkpoint_tenant_stops digest toy key 5 stopped bank late_head refl (omega arith)
