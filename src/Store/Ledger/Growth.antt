-- ===== src/Store/Ledger/Growth.antt =====
-- Appending keeps every tenant's chain verified.
use recon_sync.Common.{
  ℕ, true, ◌≡◌, refl, inl, inr, Option, some, List, [], ◌∷◌, ◌++◌, Text, lookup, length,
  Option-cases, Bool-cases, text_eq, lookup-insert, ◌==◌, ◌=?◌,
}
use recon_sync.Audit.Chain.{Record, HashedContent, compute_hash, verify_chain, last_record}
use recon_sync.Audit.Tamper.{final_hash, verify_chain-append, verify_chain_iff}
use recon_sync.Store.State.{Memory}
use recon_sync.Store.Ledger.{chain_of, last_hash, placed, hashed, extended, append_audit}

last_hash-final : (rs : List Record) → last_hash rs ≡ final_hash [] rs
last_hash-final [] = refl
last_hash-final (r ∷ rs) = go r rs
  where
    go : (x : Record) (xs : List Record) → (last_record x xs).hash ≡ final_hash x.hash xs
    go x [] = refl
    go x (y ∷ ys) = go y ys

module _ (digest : HashedContent → Option Text) where
  -- Every chain of the store is verified.
  abbrev pub AllVerified : Memory → Type 0
  AllVerified m =
      (tenant : Text)
      → (verify_chain digest tenant (chain_of (lookup tenant m.audit))).verified ≡ true

  extended-AllVerified :
      (m : Memory) (tenant : Text) (r : Record)
      → AllVerified m
      → ((name : Text)
          → (verify_chain digest name (chain_of (lookup tenant m.audit) ++ r ∷ [])).verified ≡ true)
      → AllVerified (extended m tenant r)
  extended-AllVerified m tenant r v w other = elim (Bool-cases (tenant =? other)) [
    | inl e ↦
        rw (lookup-insert tenant other (chain_of (lookup tenant m.audit) ++ r ∷ []) m.audit, e)
          (w other)
    | inr e ↦
        rw (lookup-insert tenant other (chain_of (lookup tenant m.audit) ++ r ∷ []) m.audit, e)
          (v other)
  ]

  verified_as :
      (a b : Text) (rs : List Record)
      → (verify_chain digest a rs).verified ≡ true
      → (verify_chain digest b rs).verified ≡ true
  verified_as a b rs h = (verify_chain_iff digest b rs).1 ((verify_chain_iff digest a rs).0 h)

  hash_kept :
      (clock : ℕ) (p : Record) (h : Text) (chain : List Record)
      → compute_hash digest p (last_hash chain) ≡ some h
      → compute_hash digest (hashed clock p h) (final_hash [] chain) ≡ some h
  unfolding compute_hash
  hash_kept clock p h chain f = rw (← last_hash-final chain) f

  -- If every chain of the store is verified then so is every chain after a record is appended, or
  -- refused, for any tenant.
  pub append_audit-AllVerified :
      (clock : ℕ) (m : Memory) (tenant : Text) (r : Record)
      → AllVerified m
      → AllVerified (append_audit digest clock m tenant r).0
  unfolding append_audit
  append_audit-AllVerified clock m tenant r v =
      let chain = chain_of (lookup tenant m.audit) in
      let p = placed clock tenant chain r in
      elim (Bool-cases (length tenant == 0)) [
        | inl e ↦ rw e v
        | inr e ↦ elim (Option-cases (compute_hash digest p p.prev_hash)) [
          | inl f ↦ rw (e, append_audit, f) v
          | inr (h, f) ↦
              rw (e, append_audit, f)
                (extended-AllVerified m tenant (hashed clock p h) v λ name.
                  verify_chain-append digest name chain (hashed clock p h)
                    (verified_as tenant name chain (v tenant)) refl (last_hash-final chain)
                    (hash_kept clock p h chain f))
        ]
      ]
