-- ===== src/Service/Checkpointer/Tenant.antt =====
-- One tenant of a round: what is signed is the head of a verified chain.
use recon_sync.Common.{
  ℕ, ◌≤◌, Bool, true, false, ◌≡◌, refl, inl, inr, Option, List, [], ◌∷◌, Text, lookup, length, take,
  take-length-take, length-take_le, take_of_length-le, leb, ltb, Bool-cases, text_eq, arith, ◌∙◌,
  ap, subst, sym,
}
use recon_sync.Domain.Errors.{
  Error, validation, sensitive, unknown_credit_status, empty_event, not_found, tenant_mismatch,
  illegal, failure, Result, ok, err, Result-cases,
}
use recon_sync.Audit.Chain.{Record, HashedContent, last_record, verify_chain}
use recon_sync.Audit.Tamper.{final_hash, verify_chain_iff, verify_chain-last_hash, last_record-seq}
use recon_sync.Audit.Checkpoint.{Checkpoint, Crypto, sign_checkpoint, signer_public_key}
use recon_sync.Audit.Checkpoint.Anchor.{Sound, FromSeed, Reaches, sign_checkpoint_sound}
use recon_sync.Store.State.{Memory}
use recon_sync.Store.Ledger.{chain_of, list_audit}
use recon_sync.Store.Checkpoints.{latest_checkpoint}
use recon_sync.Store.Checkpoints.Anchored.{Anchored, save_checkpoint-Anchored}
use recon_sync.Service.Checkpointer.{
  head_of, sign_and_save, sign_newer, sign_records, checkpoint_tenant,
}

-- `m.audit[tenantID]`.
abbrev pub chain : Memory → Text → List Record
chain m tenant = chain_of (lookup tenant m.audit)

-- With no limit given, the store returns the first thousand records.
pub list_audit-take :
    (m : Memory) (tenant : Text) → list_audit m tenant 0 ≡ take 1000 (chain m tenant)
unfolding list_audit
list_audit-take m tenant = elim (Bool-cases (ltb 1000 (length (chain m tenant)))) [
  | inl e ↦ rw e
  | inr e ↦ rw e (sym (take_of_length-le 1000 (chain m tenant) (ground arith)))
]

module _ (digest : HashedContent → Option Text) (crypto : Crypto) (signer : Text) (now : ℕ) where
  pub sign_newer_cases :
      (m : Memory) (c : Checkpoint) (r : Result Checkpoint)
      → (P : Memory × Result Bool → Type 0) → P (sign_and_save digest crypto signer now m c)
      → ((latest : Checkpoint) → r ≡ ok latest → c.seq ≤ latest.seq → P (m, ok false))
      → ((e : Error) → P (m, err e))
      → P (sign_newer digest crypto signer now m c r)
  unfolding sign_newer
  sign_newer_cases m c (ok latest) P p q s = elim (Bool-cases (leb c.seq latest.seq)) [
    | inl e ↦ rw e (q latest refl (ground arith))
    | inr e ↦ rw e p
  ]
  sign_newer_cases m c (err not_found) P p q s = p
  sign_newer_cases m c (err (validation e)) P p q s = s (validation e)
  sign_newer_cases m c (err (sensitive e)) P p q s = s (sensitive e)
  sign_newer_cases m c (err (unknown_credit_status e)) P p q s = s (unknown_credit_status e)
  sign_newer_cases m c (err empty_event) P p q s = s empty_event
  sign_newer_cases m c (err tenant_mismatch) P p q s = s tenant_mismatch
  sign_newer_cases m c (err (illegal e)) P p q s = s (illegal e)
  sign_newer_cases m c (err (failure e)) P p q s = s (failure e)

  -- The head of a verified part of a chain is reached by the chain.
  pub head_of-Reaches :
      (tenant : Text) (whole : List Record) (n : ℕ) (r : Record) (rs : List Record)
      → take n whole ≡ r ∷ rs
      → (verify_chain digest tenant (r ∷ rs)).verified ≡ true
      → ((last_record r rs).seq ≡ length (take n whole))
        × Reaches (last_record r rs).seq (verify_chain digest tenant (r ∷ rs)).last_hash whole
  head_of-Reaches tenant whole n r rs e v =
      let at = last_record-seq digest rs 1 [] r ((verify_chain_iff digest tenant (r ∷ rs)).0 v) in
      let here : (last_record r rs).seq ≡ length (take n whole) = omega (arith, at, ap length e) in
      (
        here,
        (
          omega (arith, at),
          omega (arith, here, length-take_le n whole),
          ap (λ (k : ℕ). final_hash [] (take k whole)) here
              ∙ (ap (final_hash []) (take-length-take n whole ∙ e)
                  ∙ sym (verify_chain-last_hash digest tenant (r ∷ rs) v)),
        ),
      )

  module _ (sound : Sound crypto) (key : FromSeed crypto signer) where
    sign_and_save-Anchored :
        (m : Memory) (c : Checkpoint)
        → Anchored crypto (signer_public_key crypto signer) m
        → Reaches c.seq c.hash (chain m c.tenant_id)
        → Anchored crypto
            (signer_public_key crypto signer)
            (sign_and_save digest crypto signer now m c).0
    unfolding sign_and_save
    sign_and_save-Anchored m c a h = elim (Result-cases (sign_checkpoint crypto signer c)) [
      | inl (s, e) ↦
          let (t, q, k, v) = sign_checkpoint_sound crypto sound signer c s key e in
          rw (e, sign_and_save)
            (save_checkpoint-Anchored crypto (signer_public_key crypto signer) m s a (
              v,
              subst (λ (u : Text). Reaches s.seq s.hash (chain m u)) (sym t)
                  (subst (λ (n : ℕ). Reaches n s.hash (chain m c.tenant_id)) (sym q)
                    (subst (λ (x : Text). Reaches c.seq x (chain m c.tenant_id)) (sym k) h)),
            ))
      | inr (bad, e) ↦ rw (e, sign_and_save) a
    ]

    sign_records-Anchored :
        (m : Memory) (tenant : Text) (n : ℕ) (rs : List Record)
        → take n (chain m tenant) ≡ rs
        → Anchored crypto (signer_public_key crypto signer) m
        → Anchored crypto
            (signer_public_key crypto signer)
            (sign_records digest crypto signer now m tenant rs).0
    unfolding sign_records
    sign_records-Anchored m tenant n [] e a = a
    sign_records-Anchored m tenant n (r ∷ rs) e a =
        let v = verify_chain digest tenant (r ∷ rs) in
        elim (Bool-cases v.verified) [
          | inr broken ↦ rw (broken, sign_records) a
          | inl verified ↦
              let c = head_of digest crypto signer now tenant v (last_record r rs) in
              rw (verified, sign_records)
                (sign_newer_cases m c (latest_checkpoint m tenant)
                  (λ (p : Memory × Result Bool).
                    Anchored crypto (signer_public_key crypto signer) p.0)
                  (sign_and_save-Anchored m c a
                    (head_of-Reaches tenant (chain m tenant) n r rs e verified).1)
                  (λ latest found le. a) (λ bad. a))
        ]

    -- If every saved checkpoint verifies against the signer's key and holds of its tenant's chain,
    -- then so it is after a tenant's chain is looked at, whatever that chain holds.
    pub checkpoint_tenant-Anchored :
        (m : Memory) (tenant : Text)
        → Anchored crypto (signer_public_key crypto signer) m
        → Anchored crypto
            (signer_public_key crypto signer)
            (checkpoint_tenant digest crypto signer now m tenant).0
    unfolding checkpoint_tenant
    checkpoint_tenant-Anchored m tenant a =
        sign_records-Anchored m tenant 1000 (list_audit m tenant 0) (sym (list_audit-take m tenant))
          a
