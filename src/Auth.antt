-- ===== src/Auth.antt =====
-- internal/auth/authenticator.go, and of key.go what checks a key. `Hashing` holds what Go's library
-- and argon2 compute; the store's lookup by prefix is an argument, `none` for its error or no record.
pub mod Trust
use recon_sync.Common.{
  ℕ, ◌+◌, ◌-◌, Bool, true, false, not, ◌||◌, Option, none, some, List, [], ◌∷◌, Text, ascii, Dict,
  lookup, insert, delete, length, ltb, leb, ◌==◌, if◌then◌else◌, text_beq, text_eq, is_some, take,
  contains,
}
use recon_sync.Store.State.{ApiKeyRecord}

-- `strings.Split` at a dollar sign, `fmt.Sscanf` with the two formats, base64, argon2 and its version,
-- and the hex text of SHA-256.
pub record Hashing : Type 0 where
  pub split : Text → List Text
  pub scan_version : Text → Option ℕ
  pub scan_params : Text → Option (ℕ × ℕ × ℕ)
  pub decode : Text → Option Text
  pub argon2 : Text → Text → ℕ × ℕ × ℕ → Text
  pub version : ℕ
  pub sha : Text → Text

abbrev pub prefix_len : ℕ
prefix_len = 12

abbrev pub argon_key_len : ℕ
argon_key_len = 32

abbrev pub max_cache_entries : ℕ
max_cache_entries = 4_096

-- Nanoseconds.
abbrev pub default_cache_ttl : ℕ
default_cache_ttl = 60_000_000_000

unfoldable pub prefix : Text → Text
prefix secret = if leb (length secret) prefix_len then secret else take prefix_len secret

abbrev pub part : ℕ → List Text → Text
part n [] = []
part n (p ∷ parts) = if n == 0 then p else part (n - 1) parts

module _ (lib : Hashing) where
  -- Memory, time and threads; the salt and the sum; `none` for the errors.
  unfoldable pub decode_hash : Text → Option ((ℕ × ℕ × ℕ) × Text × Text)
  decode_hash encoded =
      let parts = lib.split encoded in
      if not (length parts == 6) || not (text_beq (part 1 parts) (ascii "argon2id"))
      then none
      else elim (lib.scan_version (part 2 parts)) [
        | none ↦ none
        | some version ↦
            if not (version == lib.version) then none else elim (lib.scan_params (part 3 parts)) [
              | none ↦ none
              | some p ↦ elim (lib.decode (part 4 parts)) [
                | none ↦ none
                | some salt ↦ elim (lib.decode (part 5 parts)) [
                  | none ↦ none
                  | some sum ↦ some (p, salt, sum)
                ]
              ]
            ]
      ]

  -- `none` for the errors of `Verify`.
  unfoldable pub verify : Text → Text → Option Bool
  verify encoded presented = elim (decode_hash encoded) [
    | none ↦ none
    | some (p, salt, want) ↦
        if not (length want == argon_key_len)
        then none
        else some (text_beq (lib.argon2 presented salt p) want)
  ]

pub record Principal : Type 0 where
  pub tenant_id : Text
  pub key_id : Text
  pub environment : Text
  pub scopes : List Text

unfoldable pub has_scope : Principal → Text → Bool
has_scope p want = if length p.scopes == 0 then true else contains p.scopes want

pub record CacheEntry : Type 0 where
  pub principal : Principal
  pub expires_at : ℕ

abbrev pub Cache : Type 0
Cache = Dict Text CacheEntry

abbrev live_entry : ℕ → Option CacheEntry → Option Principal
live_entry now none = none
live_entry now (some entry) = if ltb entry.expires_at now then none else some entry.principal

unfoldable pub from_cache : ℕ → Cache → Text → Option Principal
from_cache now cache key = live_entry now (lookup key cache)

unfoldable pub store_principal : ℕ → ℕ → Cache → Text → Principal → Cache
store_principal ttl now cache key p =
    let entry : CacheEntry = record { principal = p; expires_at = now + ttl } in
    insert key entry (if leb max_cache_entries (length cache) then [] else cache)

abbrev pub principal_of : ApiKeyRecord → Principal
principal_of rec = record {
  tenant_id = rec.tenant_id;
  key_id = rec.id;
  environment = rec.environment;
  scopes = rec.scopes;
}

-- One call: the lookup as it answers then, the time it begins, and the time it stores what it found.
pub record Request : Type 0 where
  pub find : Text → Option ApiKeyRecord
  pub now : ℕ
  pub stored_at : ℕ
  pub secret : Text

module _ (lib : Hashing) (ttl : ℕ) where
  -- The record that the lookup answers with, if it is not revoked and the secret is its key.
  unfoldable pub checked : Option ApiKeyRecord → Text → Option ApiKeyRecord
  checked none secret = none
  checked (some rec) secret =
      if is_some rec.revoked_at then none else elim (verify lib rec.hash secret) [
        | none ↦ none
        | some ok ↦ if ok then some rec else none
      ]

  -- The cache, the caller, and the key that is touched; no caller for `ErrUnauthenticated`.
  unfoldable pub authenticate : Request → Cache → Cache × Option Principal × Option Text
  authenticate c cache =
      if length c.secret == 0
      then (cache, none, none)
      else elim (from_cache c.now cache (lib.sha c.secret)) [
        | some p ↦ (cache, some p, none)
        | none ↦ elim (checked (c.find (prefix c.secret)) c.secret) [
          | none ↦ (cache, none, none)
          | some rec ↦ (
            store_principal ttl c.stored_at cache (lib.sha c.secret) (principal_of rec),
            some (principal_of rec),
            some rec.id,
          )
        ]
      ]

  unfoldable pub invalidate : Text → Cache → Cache
  invalidate secret cache = delete (lib.sha secret) cache

  -- The calls so far, newest first, and the cache that they left.
  pub data Served : List Request → Cache → Type 0 where
    started : Served [] []
    called :
        {calls : List Request} {cache : Cache}
        → Served calls cache
        → (c : Request) → Served (c ∷ calls) (authenticate c cache).0
    invalidated :
        {calls : List Request} {cache : Cache}
        → Served calls cache
        → (secret : Text) → Served calls (invalidate secret cache)
