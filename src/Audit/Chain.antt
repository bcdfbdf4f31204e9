-- ===== src/Audit/Chain.antt =====
-- internal/audit/audit.go: records, their hash, and the walk that verifies a chain. The encoding
-- and SHA-256 are not code of the repository: `ComputeHash` is a function of what it hashes.
use recon_sync.Common.{
  ℕ, suc, ◌/◌, ◌*◌, Bool, true, false, not, Option, none, some, List, [], ◌∷◌, Text, String, ◌==◌,
  length, text_beq, if◌then◌else◌,
}
use recon_sync.Domain.Transaction.{Fields}

pub record Record : Type 0 where
  pub id : ℕ
  pub seq : ℕ
  pub tenant_id : Text
  pub event_type : Text
  pub occurred_at : ℕ
  pub recorded_at : ℕ
  pub actor : Fields
  pub subject : Fields
  pub payload : Fields
  pub prev_hash : Text
  pub hash : Text

-- `hashedContent`: exactly what is hashed. The time is a multiple of a microsecond.
pub record HashedContent : Type 0 where
  pub seq : ℕ
  pub tenant_id : Text
  pub event_type : Text
  pub occurred_at : ℕ
  pub actor : Fields
  pub subject : Fields
  pub payload : Fields
  pub prev_hash : Text

-- `StoragePrecision`, in nanoseconds.
abbrev pub storage_precision : ℕ
storage_precision = 1_000

unfoldable pub content : Record → Text → HashedContent
content r prev = record {
  seq = r.seq;
  tenant_id = r.tenant_id;
  event_type = r.event_type;
  occurred_at = r.occurred_at / storage_precision * storage_precision;
  actor = r.actor;
  subject = r.subject;
  payload = r.payload;
  prev_hash = prev;
}

pub record Verification : Type 0 where
  pub tenant_id : Text
  pub records : ℕ
  pub verified : Bool
  pub broken_at : ℕ
  pub reason : String
  pub first_seq : ℕ
  pub last_seq : ℕ
  pub last_hash : Text

unfoldable pub broken : Verification → ℕ → String → Verification
broken v seq reason = record v { verified = false; broken_at = seq; reason = reason }

abbrev pub last_record : Record → List Record → Record
last_record r [] = r
last_record r (s ∷ rs) = last_record s rs

-- `json.Marshal` and SHA-256 of a content; `none` if it cannot be encoded.
module _ (digest : HashedContent → Option Text) where
  unfoldable pub compute_hash : Record → Text → Option Text
  unfolding content
  compute_hash r prev = digest (content r prev)

  -- The three checks on one record, at its position; the reason of the first that fails, without
  -- the numbers and the error that the source formats into it.
  unfoldable pub check_record : ℕ → Text → Record → Option String
  unfolding compute_hash
  check_record i prev r =
      if not (r.seq == i)
      then some "sequence jumps; a record is missing"
      else if not (text_beq r.prev_hash prev)
      then some "prev_hash does not match the preceding record; the chain was re-linked"
      else elim (compute_hash r prev) [
        | none ↦ some "record could not be hashed"
        | some want ↦
            if not (text_beq want r.hash)
            then some "recorded hash does not match the record's content; it was altered"
            else none
      ]

  unfoldable pub walk : Verification → ℕ → Text → List Record → Verification
  walk v i prev [] = record v { last_hash = prev }
  walk v i prev (r ∷ rs) =
      let rest = walk v (suc i) r.hash rs in
      elim (check_record i prev r) [ none ↦ rest | some reason ↦ broken v r.seq reason ]

  abbrev blank : Text → List Record → Verification
  blank tenant records = record {
    tenant_id = tenant;
    records = length records;
    verified = true;
    broken_at = 0;
    reason = "";
    first_seq = 0;
    last_seq = 0;
    last_hash = [];
  }

  unfoldable pub verify_chain : Text → List Record → Verification
  unfolding walk check_record broken
  verify_chain tenant [] = blank tenant []
  verify_chain tenant (r ∷ rs) =
      walk (record (blank tenant (r ∷ rs)) { first_seq = r.seq; last_seq = (last_record r rs).seq })
        1 [] (r ∷ rs)
