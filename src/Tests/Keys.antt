-- ===== src/Tests/Keys.antt =====
-- The properties of the authenticator.
use recon_sync.Common.{ℕ, ◌≤◌, ◌⊎◌, refl, some, none, [], ◌∷◌, Text, ascii, lookup, insert, text_eq}
use recon_sync.Store.State.{ApiKeyRecord}
use recon_sync.Auth.{
  Hashing, Request, authenticate, checked, verify, decode_hash, from_cache, prefix, store_principal,
  principal_of, started, called,
}
use recon_sync.Auth.Trust.{Vouched, VouchedUntil, authenticate-Vouched}
use recon_sync.Tests.Data.{bank}

abbrev digest : Text
digest =
    1 ∷ 1 ∷ 1 ∷ 1 ∷ 1 ∷ 1 ∷ 1 ∷ 1 ∷ 1 ∷ 1 ∷ 1 ∷ 1 ∷ 1 ∷ 1 ∷ 1 ∷ 1 ∷ 1 ∷ 1 ∷ 1 ∷ 1 ∷ 1 ∷ 1 ∷ 1 ∷ 1
    ∷ 1 ∷ 1 ∷ 1 ∷ 1 ∷ 1 ∷ 1 ∷ 1 ∷ 1 ∷ []

-- Every hash has the same six parts, and every sum is the digest.
abbrev hashing : Hashing
hashing = record {
  split = λ t. [] ∷ ascii "argon2id" ∷ [] ∷ [] ∷ [] ∷ [] ∷ [];
  scan_version = λ t. some 19;
  scan_params = λ t. some (65_536, 1, 4);
  decode = λ t. some digest;
  argon2 = λ t salt p. digest;
  version = 19;
  sha = λ t. t;
}

abbrev known : ApiKeyRecord
known = record {
  id = ascii "k1";
  tenant_id = bank;
  prefix = ascii "rs_live_9f2a";
  hash = [];
  scopes = [];
  environment = ascii "live";
  revoked_at = none;
}

abbrev key_text : Text
key_text = ascii "rs_live_9f2a7c"

abbrev first : Request
first = record { find = λ t. some known; now = 100; stored_at = 101; secret = key_text }

-- The key is revoked by now.
abbrev second : Request
second = record {
  find = λ t. some (record known { revoked_at = some 105 });
  now = 110;
  stored_at = 110;
  secret = key_text;
}

authenticate-Vouched_example :
    Vouched hashing 60 second (principal_of known)
    ⊎ ((until : ℕ) × (110 ≤ until)
        × VouchedUntil hashing 60 (first ∷ []) key_text (principal_of known) until)
unfolding authenticate checked verify decode_hash from_cache prefix store_principal lookup insert
authenticate-Vouched_example =
    authenticate-Vouched hashing 60 (called started first) second (principal_of known) refl
