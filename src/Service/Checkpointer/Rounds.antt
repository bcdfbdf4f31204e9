-- ===== src/Service/Checkpointer/Rounds.antt =====
-- A round over all tenants: what it saves, and that it reaches everyone.
use recon_sync.Common.{
  leb, leb→le, ◌=?◌, text_beq_iff, subst, ap, ◌∙◌, take, contains, sym, Dict, ℕ, ◌+◌, ◌≤◌, ◌<◌,
  true, ◌≡◌, refl, inl, inr, Option, some, List, [], ◌∷◌, Text, lookup, length, Bool-cases, text_eq,
  arith,
}
use recon_sync.Domain.Errors.{ok}
use recon_sync.Audit.Chain.{Record, HashedContent, last_record, verify_chain}
use recon_sync.Audit.Tamper.{verify_chain_iff}
use recon_sync.Audit.Checkpoint.{
  Checkpoint, Crypto, sign_checkpoint, signer_public_key, checkpoint_message, signed_content,
}
use recon_sync.Audit.Checkpoint.Anchor.{Sound, FromSeed, Linked-take}
use recon_sync.Store.State.{Memory}
use recon_sync.Store.Ledger.{chain_of}
use recon_sync.Store.Checkpoints.{latest_checkpoint, tenants_with_audit}
use recon_sync.Store.Checkpoints.Anchored.{Anchored}
use recon_sync.Store.Checkpoints.Listed.{tenants_with_audit-contains}
use recon_sync.Store.Checkpoints.Latest.{
  Signed, save_checkpoint-Signed, save_checkpoint-Signed_self, Signed-latest_checkpoint,
  latest_checkpoint-Signed, save_checkpoint-audit, latest_checkpoint-cases,
}
use recon_sync.Service.Checkpointer.{
  head_of, sign_and_save, sign_newer, sign_records, checkpoint_tenant, checkpoint_loop, checkpoint,
  counted_signed,
}
use recon_sync.Service.Checkpointer.Looked.{checkpoint_tenant_cases}
use recon_sync.Service.Checkpointer.Tenant.{
  chain, list_audit-take, head_of-Reaches, checkpoint_tenant-Anchored,
}

module _ (digest : HashedContent → Option Text) (crypto : Crypto) (signer : Text) (now : ℕ) where
  -- Every checkpoint can be encoded.
  abbrev pub Encodes : Type 0
  Encodes = (c : Checkpoint) → (msg : Text) × (crypto.encode (signed_content c) ≡ some msg)

  checkpoint_tenant-audit :
      (m : Memory) (tenant : Text)
      → (checkpoint_tenant digest crypto signer now m tenant).0.audit ≡ m.audit
  checkpoint_tenant-audit m tenant =
      checkpoint_tenant_cases digest crypto signer now m tenant (λ (x : Memory). x.audit ≡ m.audit)
        refl (λ c. save_checkpoint-audit m c)

  checkpoint_tenant-Signed :
      (m : Memory) (tenant other : Text) (n : ℕ)
      → Signed n other m
      → Signed n other (checkpoint_tenant digest crypto signer now m tenant).0
  checkpoint_tenant-Signed m tenant other n h =
      checkpoint_tenant_cases digest crypto signer now m tenant (Signed n other) h
        (λ c. save_checkpoint-Signed m c other n h)

  sign_and_save-Signed :
      (m : Memory) (c : Checkpoint)
      → Encodes
      → Signed c.seq c.tenant_id (sign_and_save digest crypto signer now m c).0
  unfolding sign_and_save sign_checkpoint checkpoint_message
  sign_and_save-Signed m c encodes =
      let (msg, e) = encodes c in
      rw (e, checkpoint_message, sign_checkpoint, sign_and_save) (save_checkpoint-Signed_self m _)

  records-Signed :
      (m : Memory) (tenant : Text) (r : Record) (rs : List Record)
      → Encodes
      → (verify_chain digest tenant (r ∷ rs)).verified ≡ true
      → Signed
          (last_record r rs).seq
          tenant
          (sign_records digest crypto signer now m tenant (r ∷ rs)).0
  unfolding sign_records sign_newer
  records-Signed m tenant r rs encodes v =
      let c =
        head_of digest crypto signer now tenant (verify_chain digest tenant (r ∷ rs))
          (last_record r rs) in
      elim (latest_checkpoint-cases m tenant) [
        | inl e ↦ rw (v, sign_records, e, sign_newer) (sign_and_save-Signed m c encodes)
        | inr (latest, e) ↦ elim (Bool-cases (leb c.seq latest.seq)) [
          | inl le ↦
              rw (v, sign_records, e, sign_newer, le)
                (Signed-latest_checkpoint m tenant latest c.seq e (leb→le _ _ le))
          | inr gt ↦ rw (v, sign_records, e, sign_newer, gt) (sign_and_save-Signed m c encodes)
        ]
      ]

  first_verified :
      (m : Memory) (tenant : Text)
      → (verify_chain digest tenant (chain m tenant)).verified ≡ true
      → (verify_chain digest tenant (take 1000 (chain m tenant))).verified ≡ true
  first_verified m tenant v = (verify_chain_iff digest tenant (take 1000 (chain m tenant))).1 (
      Linked-take digest 1000 1 [] (chain m tenant)
        ((verify_chain_iff digest tenant (chain m tenant)).0 v))

  taken_Signed :
      (m : Memory) (tenant : Text) (rs : List Record)
      → take 1000 (chain m tenant) ≡ rs
      → Encodes
      → 0 < length rs
      → (verify_chain digest tenant rs).verified ≡ true
      → Signed (length rs) tenant (sign_records digest crypto signer now m tenant rs).0
  taken_Signed m tenant [] e encodes pos v = absurd (omega arith)
  taken_Signed m tenant (r ∷ rs) e encodes pos v =
      subst (λ (n : ℕ). Signed n tenant (sign_records digest crypto signer now m tenant (r ∷ rs)).0)
        ((head_of-Reaches digest crypto signer now tenant (chain m tenant) 1000 r rs e v).0
          ∙ ap length e)
        (records-Signed m tenant r rs encodes v)

  -- The chain has records, and the chain is verified.
  abbrev pub SoundChain : Memory → Text → Type 0
  SoundChain m tenant =
      (0 < length (take 1000 (chain m tenant)))
      × ((verify_chain digest tenant (chain m tenant)).verified ≡ true)

  checkpoint_tenant-Signed_self :
      (m : Memory) (tenant : Text)
      → Encodes
      → SoundChain m tenant
      → Signed
          (length (take 1000 (chain m tenant)))
          tenant
          (checkpoint_tenant digest crypto signer now m tenant).0
  unfolding checkpoint_tenant
  checkpoint_tenant-Signed_self m tenant encodes s = rw (list_audit-take m tenant) (
      taken_Signed m tenant (take 1000 (chain m tenant)) refl encodes s.0
        (first_verified m tenant s.1))

  loop-Signed :
      (tenants : List Text) (m : Memory) (other : Text) (n k : ℕ)
      → Signed n other m
      → Signed n other (checkpoint_loop digest crypto signer now tenants m k).0
  unfolding checkpoint_loop
  loop-Signed [] m other n k h = h
  loop-Signed (t ∷ ts) m other n k h =
      let (m', result) = checkpoint_tenant digest crypto signer now m t in
      loop-Signed ts m' other n (k + counted_signed digest crypto signer now result)
        (checkpoint_tenant-Signed m t other n h)

  loop-Signed_self :
      (tenants : List Text) (m : Memory) (tenant : Text) (k n : ℕ)
      → Encodes
      → SoundChain m tenant
      → n ≡ length (take 1000 (chain m tenant))
      → contains tenants tenant ≡ true
      → Signed n tenant (checkpoint_loop digest crypto signer now tenants m k).0
  unfolding checkpoint_loop contains
  loop-Signed_self [] m tenant k n encodes s e h = absurd (cc)
  loop-Signed_self (t ∷ ts) m tenant k n encodes s e h =
      let (m', result) = checkpoint_tenant digest crypto signer now m t in
      let same : chain m' tenant ≡ chain m tenant =
        ap (λ (d : Dict Text (List Record)). chain_of (lookup tenant d))
          (checkpoint_tenant-audit m t) in
      let k' = k + counted_signed digest crypto signer now result in
      elim (Bool-cases (t =? tenant)) [
        | inl here ↦ loop-Signed ts m' tenant n k' (
            subst
              (λ (u : Text).
                SoundChain m u
                → n ≡ length (take 1000 (chain m u))
                → Signed n u (checkpoint_tenant digest crypto signer now m t).0)
              ((text_beq_iff t tenant).0 here)
              (λ q f.
                subst (λ (i : ℕ). Signed i t (checkpoint_tenant digest crypto signer now m t).0)
                  (sym f) (checkpoint_tenant-Signed_self m t encodes q))
              s e)
        | inr other ↦
            loop-Signed_self ts m' tenant k' n encodes
              (subst
                (λ (c : List Record).
                  (0 < length (take 1000 c)) × ((verify_chain digest tenant c).verified ≡ true))
                (sym same) s)
              (e ∙ ap (λ (c : List Record). length (take 1000 c)) (sym same)) (ground arith)
      ]

  -- If every checkpoint can be encoded then, after a round, every tenant with a record whose chain
  -- is verified has a checkpoint at the last of its first thousand records or beyond, whatever the
  -- chains of the other tenants hold.
  pub checkpoint-latest :
      (m : Memory) (tenant : Text) (r : Record) (rs : List Record)
      → Encodes
      → lookup tenant m.audit ≡ some (r ∷ rs)
      → (verify_chain digest tenant (r ∷ rs)).verified ≡ true
      → (c : Checkpoint) × (latest_checkpoint (checkpoint digest crypto signer now m).0 tenant
          ≡ ok c)
        × (length (take 1000 (r ∷ rs)) ≤ c.seq)
  unfolding checkpoint
  checkpoint-latest m tenant r rs encodes e v =
      latest_checkpoint-Signed (checkpoint digest crypto signer now m).0 tenant
        (length (take 1000 (r ∷ rs)))
        (loop-Signed_self (tenants_with_audit m) m tenant 0 (length (take 1000 (r ∷ rs))) encodes
          (rw e (omega arith, v)) (rw e) (tenants_with_audit-contains m tenant r rs e))

  module _ (sound : Sound crypto) (key : FromSeed crypto signer) where
    loop-Anchored :
        (tenants : List Text) (m : Memory) (k : ℕ)
        → Anchored crypto (signer_public_key crypto signer) m
        → Anchored crypto
            (signer_public_key crypto signer)
            (checkpoint_loop digest crypto signer now tenants m k).0
    unfolding checkpoint_loop
    loop-Anchored [] m k a = a
    loop-Anchored (t ∷ ts) m k a =
        let (m', result) = checkpoint_tenant digest crypto signer now m t in
        loop-Anchored ts m' (k + counted_signed digest crypto signer now result)
          (checkpoint_tenant-Anchored digest crypto signer now sound key m t a)

    -- If base64 and Ed25519 do what they document, the signer's key is made from a seed, and every
    -- saved checkpoint verifies against its public part and holds of its tenant's chain, then so it
    -- is after a round, whatever the chains hold.
    pub checkpoint-Anchored :
        (m : Memory)
        → Anchored crypto (signer_public_key crypto signer) m
        → Anchored crypto
            (signer_public_key crypto signer)
            (checkpoint digest crypto signer now m).0
    unfolding checkpoint
    checkpoint-Anchored m a = loop-Anchored (tenants_with_audit m) m 0 a
