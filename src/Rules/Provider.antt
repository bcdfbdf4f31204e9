-- ===== src/Rules/Provider.antt =====
-- internal/rules/provider.go: the rule sets of tenants, cached for a short time. The lock is left
-- out: a `Resolve` reads the cache, calls the loader, and writes the cache. The loader is code
-- of the caller; what it returns is an argument.
use recon_sync.Common.{
  ℕ, ◌+◌, ◌<◌, ◌≤◌, Bool, false, ◌≡◌, Option, none, some, List, [], Text, arith, ltb, if◌then◌else◌,
  Dict, lookup, insert, delete, text_eq, lookup-insert_self, Option-cases, inl, inr, ◌⊎◌,
}
use recon_sync.Domain.Errors.{Error}
use recon_sync.Rules.{Rule, new_set}

pub record Entry : Type 0 where
  pub set : List Rule
  pub expires_at : ℕ

pub record Provider : Type 0 where
  pub ttl : ℕ
  pub cached : Dict Text Entry

-- 15 seconds in nanoseconds.
abbrev pub default_cache_ttl : ℕ
default_cache_ttl = 15_000_000_000

-- What a load of the rules returns.
pub data Loaded : Type 0 where
  rules : List Rule → Loaded
  load_error : Error → Loaded

pub data Resolved : Type 0 where
  resolved : List Rule → Resolved
  resolve_error : Error → Resolved

unfoldable pub new_provider : ℕ → Provider
new_provider ttl = record { ttl = if ltb 0 ttl then ttl else default_cache_ttl; cached = [] }

abbrev is_fresh : Option Entry → ℕ → Bool
is_fresh none now = false
is_fresh (some e) now = ltb now e.expires_at

abbrev stale_or_error : Option Entry → Error → Resolved
stale_or_error none err = resolve_error err
stale_or_error (some e) err = resolved e.set

abbrev fresh_set : Option Entry → Resolved
fresh_set none = resolved []
fresh_set (some e) = resolved e.set

-- `Resolve`. `now` is the clock at the read and `later` at the write.
unfoldable pub resolve_set : Provider → Text → ℕ → ℕ → Loaded → Provider × Resolved
unfolding new_set
resolve_set p tenant now later loaded =
    if is_fresh (lookup tenant p.cached) now
    then (p, fresh_set (lookup tenant p.cached))
    else elim loaded [
      | load_error err ↦ (p, stale_or_error (lookup tenant p.cached) err)
      | rules rs ↦ (
        record p {
          cached = insert tenant (record { set = new_set rs; expires_at = later + p.ttl }) p.cached;
        },
        resolved (new_set rs),
      )
    ]

unfoldable pub invalidate : Provider → Text → Provider
invalidate p tenant = record p { cached = delete tenant p.cached }

-- Once the entry of a tenant has expired, or was invalidated, a successful load is what `Resolve`
-- returns; and it is what every later `Resolve` returns, whatever loads would give, until the
-- time to live has passed.
pub resolve_set-reload :
    (p : Provider) (tenant : Text) (now later : ℕ) (rs : List Rule)
    → ((e : Entry) → lookup tenant p.cached ≡ some e → e.expires_at ≤ now)
    → (now' later' : ℕ) (loaded : Loaded) → now' < later + p.ttl
    → let (q, got) = resolve_set p tenant now later (rules rs) in
      (got ≡ resolved (new_set rs))
      × ((resolve_set q tenant now' later' loaded).1 ≡ resolved (new_set rs))
unfolding resolve_set
resolve_set-reload p tenant now later rs old now' later' loaded h =
    let stored =
      lookup-insert_self tenant (record { set = new_set rs; expires_at = later + p.ttl })
        p.cached in
    elim (Option-cases (lookup tenant p.cached)) [
      | inl e ↦ ground (arith, stored)
      | inr (x, e) ↦ ground (arith, stored, old x e)
    ]

-- A load that fails changes no cache entry and never loses rules that are cached, however old: it
-- is reported exactly for a tenant with no entry.
pub resolve_set-stale :
    (p : Provider) (tenant : Text) (now later : ℕ) (err : Error)
    → let (q, got) = resolve_set p tenant now later (load_error err) in
      (q ≡ p)
      × (((e : Entry) × (lookup tenant p.cached ≡ some e) × (got ≡ resolved e.set))
          ⊎ ((lookup tenant p.cached ≡ none) × (got ≡ resolve_error err)))
unfolding resolve_set
resolve_set-stale p tenant now later err = elim (Option-cases (lookup tenant p.cached)) [
  | inl h ↦ (ground arith, inr (h, ground arith))
  | inr (e, h) ↦ (ground arith, inl (e, h, ground arith))
]
