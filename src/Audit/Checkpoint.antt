-- ===== src/Audit/Checkpoint.antt =====
-- internal/audit/checkpoint.go: signatures over the head of a chain. Ed25519, base64, hex and JSON
-- are not code of the repository: `Crypto` holds their functions, and a theorem names what it
-- relies on. An error text leaves out what the source formats into it.
pub mod Anchor
use recon_sync.Common.{
  ℕ, ◌/◌, ◌*◌, Bool, true, false, not, ◌||◌, Option, none, some, List, [], ◌∷◌, Text, ascii, ◌==◌,
  ltb, length, text_beq, if◌then◌else◌,
}
use recon_sync.Domain.Errors.{Error, failure, Result, ok, err}
use recon_sync.Audit.Chain.{Record, HashedContent, compute_hash, storage_precision}

pub record Checkpoint : Type 0 where
  pub tenant_id : Text
  pub seq : ℕ
  pub hash : Text
  pub taken_at : ℕ
  pub signature : Text
  pub public_key : Text

-- `signedContent`: exactly what is signed.
pub record SignedContent : Type 0 where
  pub tenant_id : Text
  pub seq : ℕ
  pub hash : Text
  pub taken_at : ℕ

pub record Crypto : Type 0 where
  pub encode : SignedContent → Option Text
  pub base64 : Text → Text
  pub unbase64 : Text → Option Text
  pub unhex : Text → Option Text
  pub from_seed : Text → Text
  pub public_part : Text → Text
  pub sign : Text → Text → Text
  pub verify : Text → Text → Text → Bool

-- `ed25519.SeedSize`, `PrivateKeySize` and `PublicKeySize`.
abbrev pub seed_size : ℕ
seed_size = 32

abbrev pub private_key_size : ℕ
private_key_size = 64

abbrev pub public_key_size : ℕ
public_key_size = 32

pub record CheckpointCheck : Type 0 where
  pub checked : Bool
  pub seq : ℕ
  pub taken_at : ℕ
  pub matches : Bool
  pub public_key : Text
  pub reason : Text

abbrev pub signed_content : Checkpoint → SignedContent
signed_content c = record {
  tenant_id = c.tenant_id;
  seq = c.seq;
  hash = c.hash;
  taken_at = c.taken_at / storage_precision * storage_precision;
}

abbrev refusal : CheckpointCheck → Text → CheckpointCheck
refusal out reason = record out { reason = reason }

module _ (crypto : Crypto) where
  unfoldable pub decode_key : Text → Result Text
  decode_key encoded = elim (crypto.unhex encoded) [
    | some raw ↦ ok raw
    | none ↦ elim (crypto.unbase64 encoded) [
      | some raw ↦ ok raw
      | none ↦ err (failure (ascii "audit: signing key must be hex or base64"))
    ]
  ]

  -- `NewSigner`: a signer is its private key.
  unfoldable pub new_signer : Text → Result Text
  unfolding decode_key
  new_signer encoded =
      if length encoded == 0
      then err (failure (ascii "audit: no checkpoint signing key configured"))
      else elim (decode_key encoded) [
        | err e ↦ err e
        | ok raw ↦
            if length raw == private_key_size
            then ok raw
            else if length raw == seed_size
            then ok (crypto.from_seed raw)
            else err (failure (ascii "audit: signing key must be 32 or 64 bytes"))
      ]

  unfoldable pub signer_public_key : Text → Text
  signer_public_key priv = crypto.base64 (crypto.public_part priv)

  unfoldable pub checkpoint_message : Checkpoint → Result Text
  checkpoint_message c = elim (crypto.encode (signed_content c)) [
    | none ↦ err (failure (ascii "audit: encode checkpoint"))
    | some encoded ↦ ok encoded
  ]

  unfoldable pub sign_checkpoint : Text → Checkpoint → Result Checkpoint
  unfolding checkpoint_message signer_public_key
  sign_checkpoint priv c = elim (checkpoint_message c) [
    | err e ↦ err e
    | ok msg ↦ ok (record c {
      signature = crypto.base64 (crypto.sign priv msg);
      public_key = signer_public_key priv;
    })
  ]

  -- The checks behind the decoding of the public key.
  unfoldable pub verify_with : Checkpoint → Text → Option Error
  unfolding checkpoint_message
  verify_with c pub_key = elim (crypto.unbase64 c.signature) [
    | none ↦ some (failure (ascii "audit: signature is not valid base64"))
    | some sig ↦ elim (checkpoint_message c) [
      | err e ↦ some e
      | ok msg ↦
          if not (crypto.verify pub_key msg sig)
          then some (failure (ascii "audit: checkpoint signature does not verify"))
          else none
    ]
  ]

  unfoldable pub verify_checkpoint : Checkpoint → Text → Option Error
  unfolding verify_with
  verify_checkpoint c public_key = elim (crypto.unbase64 public_key) [
    | none ↦ some (failure (ascii "audit: public key must be a base64 Ed25519 key"))
    | some key ↦
        if not (length key == public_key_size)
        then some (failure (ascii "audit: public key must be a base64 Ed25519 key"))
        else verify_with c key
  ]

-- What the loop of `VerifyAgainstCheckpoint` reaches; `none` if a record could not be hashed.
module _ (digest : HashedContent → Option Text) where
  unfoldable pub reach : ℕ → Text → Text → List Record → Option Text
  unfolding compute_hash
  reach seq prev reached [] = some reached
  reach seq prev reached (r ∷ records) =
      if ltb seq r.seq then some reached else elim (compute_hash digest r prev) [
        | none ↦ none
        | some want ↦ reach seq want (if r.seq == seq then want else reached) records
      ]

  -- The `switch` on what was reached.
  abbrev pub compare_reached : CheckpointCheck → Text → Text → CheckpointCheck
  compare_reached out hash reached =
      if length reached == 0
      then refusal out (ascii "the chain does not reach the signed seq; records were removed")
      else if not (text_beq reached hash)
      then refusal out (ascii "the chain reaches a different hash; history was rewritten")
      else record out { matches = true }

  unfoldable pub verify_against_checkpoint :
      Crypto → List Record → Checkpoint → Text → CheckpointCheck
  unfolding reach verify_checkpoint
  verify_against_checkpoint crypto records c public_key =
      let out : CheckpointCheck = record {
        checked = true;
        seq = c.seq;
        taken_at = c.taken_at;
        matches = false;
        public_key = c.public_key;
        reason = [];
      } in
      elim (verify_checkpoint crypto c public_key) [
        | some e ↦ refusal out (ascii "the checkpoint itself does not verify")
        | none ↦ elim (reach c.seq [] [] records) [
          | none ↦ refusal out (ascii "record could not be hashed")
          | some reached ↦ compare_reached out c.hash reached
        ]
      ]
