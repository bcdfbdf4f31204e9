-- ===== src/Store/Checkpoints/Anchored.antt =====
-- Saved checkpoints stay true of the chains, through appended records and newly saved checkpoints.
use recon_sync.Common.{
  ℕ, ◌≡◌, inl, inr, Option, none, List, [], ◌∷◌, ◌++◌, Text, lookup, length, take-append,
  length-append, Bool-cases, Option-cases, text_eq, lookup-insert, ◌=?◌, ◌==◌, All, All-append,
  All-map, arith, text_beq_iff, ◌∙◌, ap, subst, false, lookup-insert_self,
}
use recon_sync.Audit.Chain.{Record, HashedContent, compute_hash}
use recon_sync.Audit.Tamper.{final_hash}
use recon_sync.Audit.Checkpoint.{Checkpoint, Crypto, verify_checkpoint}
use recon_sync.Audit.Checkpoint.Anchor.{Reaches}
use recon_sync.Store.State.{Memory}
use recon_sync.Store.Ledger.{chain_of, placed, hashed, extended, append_audit}
use recon_sync.Store.Checkpoints.{checkpoints_of, has_seq, save_checkpoint}

Reaches-append :
    (rs ss : List Record) (n : ℕ) (hash : Text) → Reaches n hash rs → Reaches n hash (rs ++ ss)
Reaches-append rs ss n hash h = (
  h.0,
  omega (arith, h.1, length-append rs ss),
  ap (final_hash []) (take-append n rs ss h.1) ∙ h.2,
)

module _ (crypto : Crypto) (public_key : Text) where
  -- The checkpoint verifies, and the chain reaches its position with its hash.
  abbrev pub Holds : List Record → Checkpoint → Type 0
  Holds chain c = (verify_checkpoint crypto c public_key ≡ none) × Reaches c.seq c.hash chain

  -- Every saved checkpoint holds of its tenant's chain.
  abbrev pub Anchored : Memory → Type 0
  Anchored m =
      (tenant : Text) → All (Holds (chain_of (lookup tenant m.audit))) (checkpoints_of m tenant)

  extended-Anchored :
      (m : Memory) (tenant : Text) (r : Record) → Anchored m → Anchored (extended m tenant r)
  extended-Anchored m tenant r a other = elim (Bool-cases (tenant =? other)) [
    | inl e ↦
        rw
          (
            lookup-insert tenant other (chain_of (lookup tenant m.audit) ++ r ∷ []) m.audit,
            e,
            (text_beq_iff tenant other).0 e,
          )
          (All-map (Holds (chain_of (lookup other m.audit))) _
            (λ c h.
              (h.0, Reaches-append (chain_of (lookup other m.audit)) (r ∷ []) c.seq c.hash h.1))
            (checkpoints_of m other) (a other))
    | inr e ↦
        rw (lookup-insert tenant other (chain_of (lookup tenant m.audit) ++ r ∷ []) m.audit, e)
          (a other)
  ]

  -- If every saved checkpoint verifies and holds of its tenant's chain, then so it is after a record
  -- is appended, or refused, for any tenant.
  pub append_audit-Anchored :
      (digest : HashedContent → Option Text) (clock : ℕ) (m : Memory) (tenant : Text) (r : Record)
      → Anchored m
      → Anchored (append_audit digest clock m tenant r).0
  unfolding append_audit
  append_audit-Anchored digest clock m tenant r a =
      let p = placed clock tenant (chain_of (lookup tenant m.audit)) r in
      elim (Bool-cases (length tenant == 0)) [
        | inl e ↦ rw e a
        | inr e ↦ elim (Option-cases (compute_hash digest p p.prev_hash)) [
          | inl f ↦ rw (e, append_audit, f) a
          | inr (h, f) ↦ rw (e, append_audit, f) (extended-Anchored m tenant (hashed clock p h) a)
        ]
      ]

  save_own-Anchored :
      (m : Memory) (c : Checkpoint)
      → Anchored m
      → Holds (chain_of (lookup c.tenant_id m.audit)) c
      → has_seq c.seq (checkpoints_of m c.tenant_id) ≡ false
      → All
          (Holds (chain_of (lookup c.tenant_id (save_checkpoint m c).audit)))
          (checkpoints_of (save_checkpoint m c) c.tenant_id)
  unfolding save_checkpoint
  save_own-Anchored m c a h new =
      let old = checkpoints_of m c.tenant_id in
      rw (new, save_checkpoint, lookup-insert_self c.tenant_id (old ++ c ∷ []) m.checkpoints)
        (All-append (Holds (chain_of (lookup c.tenant_id m.audit))) old (c ∷ []) (a c.tenant_id)
          (h, tt))

  pub save_checkpoint-Anchored :
      (m : Memory) (c : Checkpoint)
      → Anchored m
      → Holds (chain_of (lookup c.tenant_id m.audit)) c
      → Anchored (save_checkpoint m c)
  unfolding save_checkpoint
  save_checkpoint-Anchored m c a h tenant =
      let old = checkpoints_of m c.tenant_id in
      elim (Bool-cases (has_seq c.seq old)) [
        | inl known ↦ rw (known, save_checkpoint) (a tenant)
        | inr new ↦ elim (Bool-cases (c.tenant_id =? tenant)) [
          | inl e ↦
              subst
                (λ (t : Text).
                  All (Holds (chain_of (lookup t (save_checkpoint m c).audit)))
                    (checkpoints_of (save_checkpoint m c) t))
                ((text_beq_iff c.tenant_id tenant).0 e) (save_own-Anchored m c a h new)
          | inr e ↦
              rw
                (
                  new,
                  save_checkpoint,
                  lookup-insert c.tenant_id tenant (old ++ c ∷ []) m.checkpoints,
                  e,
                )
                (a tenant)
        ]
      ]
