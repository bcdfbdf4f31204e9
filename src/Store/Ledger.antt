-- ===== src/Store/Ledger.antt =====
-- internal/store/memory_audit.go: the audit chain of each tenant in the store.
pub mod Growth
use recon_sync.Common.{
  ℕ, ◌+◌, Bool, Option, none, some, List, [], ◌∷◌, ◌++◌, Text, ascii, lookup, insert, length, ltb,
  ◌==◌, if◌then◌else◌, take, text_eq,
}
use recon_sync.Domain.Errors.{Error, failure, Result, ok, err}
use recon_sync.Audit.Chain.{Record, HashedContent, compute_hash, last_record}
use recon_sync.Store.State.{Memory}

-- `m.audit[tenantID]`.
abbrev pub chain_of : Option (List Record) → List Record
chain_of none = []
chain_of (some chain) = chain

-- The hash that a new record is linked to.
abbrev pub last_hash : List Record → Text
last_hash [] = []
last_hash (r ∷ rs) = (last_record r rs).hash

-- The record with its position and its link, before it is hashed.
abbrev pub placed : ℕ → Text → List Record → Record → Record
placed clock tenant chain r = record r {
  tenant_id = tenant;
  occurred_at = if r.occurred_at == 0 then clock else r.occurred_at;
  seq = length chain + 1;
  prev_hash = last_hash chain;
}

abbrev pub hashed : ℕ → Record → Text → Record
hashed clock p h = record p { hash = h; id = p.seq; recorded_at = clock }

abbrev pub extended : Memory → Text → Record → Memory
extended m tenant r = record m {
  audit = insert tenant (chain_of (lookup tenant m.audit) ++ r ∷ []) m.audit;
}

module _ (digest : HashedContent → Option Text) where
  unfoldable pub append_audit : ℕ → Memory → Text → Record → Memory × Result Record
  append_audit clock m tenant r =
      let chain = chain_of (lookup tenant m.audit) in
      let p = placed clock tenant chain r in
      if length tenant == 0
      then (m, err (failure (ascii "store: audit record needs a tenant")))
      else elim (compute_hash digest p p.prev_hash) [
        | none ↦ (m, err (failure (ascii "audit: encode record for hashing")))
        | some h ↦ (extended m tenant (hashed clock p h), ok (hashed clock p h))
      ]

unfoldable pub list_audit : Memory → Text → ℕ → List Record
list_audit m tenant limit =
    let most : ℕ = if limit == 0 then 1000 else limit in
    let chain = chain_of (lookup tenant m.audit) in
    if ltb most (length chain) then take most chain else chain
