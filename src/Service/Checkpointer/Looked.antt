-- ===== src/Service/Checkpointer/Looked.antt =====
-- What a look at a tenant's chain changes.
use recon_sync.Common.{
  le→leb, leb, ℕ, ◌≤◌, Bool, true, ◌≡◌, refl, inl, inr, Option, List, [], ◌∷◌, Text, take,
  length-take-le, Bool-cases, text_eq, arith, sym,
}
use recon_sync.Domain.Errors.{Result, ok, Result-cases}
use recon_sync.Audit.Chain.{Record, HashedContent, last_record, verify_chain}
use recon_sync.Audit.Checkpoint.{Checkpoint, Crypto, sign_checkpoint}
use recon_sync.Store.State.{Memory}
use recon_sync.Store.Ledger.{list_audit}
use recon_sync.Store.Checkpoints.{latest_checkpoint, save_checkpoint}
use recon_sync.Service.Checkpointer.{
  head_of, sign_and_save, sign_newer, sign_records, checkpoint_tenant,
}
use recon_sync.Service.Checkpointer.Tenant.{
  chain, list_audit-take, sign_newer_cases, head_of-Reaches,
}

module _ (digest : HashedContent → Option Text) (crypto : Crypto) (signer : Text) (now : ℕ) where
  save_cases :
      (m : Memory) (c : Checkpoint) (P : Memory → Type 0)
      → P m
      → ((c : Checkpoint) → P (save_checkpoint m c))
      → P (sign_and_save digest crypto signer now m c).0
  unfolding sign_and_save
  save_cases m c P p q = elim (Result-cases (sign_checkpoint crypto signer c)) [
    | inl (s, e) ↦ rw (e, sign_and_save) (q s)
    | inr (bad, e) ↦ rw (e, sign_and_save) p
  ]

  records_cases :
      (m : Memory) (tenant : Text) (rs : List Record) (P : Memory → Type 0)
      → P m
      → ((c : Checkpoint) → P (save_checkpoint m c))
      → P (sign_records digest crypto signer now m tenant rs).0
  unfolding sign_records
  records_cases m tenant [] P p q = p
  records_cases m tenant (r ∷ rs) P p q =
      let v = verify_chain digest tenant (r ∷ rs) in
      let c = head_of digest crypto signer now tenant v (last_record r rs) in
      elim (Bool-cases v.verified) [
        | inr e ↦ rw (e, sign_records) p
        | inl e ↦
            rw (e, sign_records)
              (sign_newer_cases digest crypto signer now m c (latest_checkpoint m tenant)
                (λ (x : Memory × Result Bool). P x.0) (save_cases m c P p q) (λ latest f le. p)
                (λ bad. p))
      ]

  -- It saves one checkpoint or none.
  pub checkpoint_tenant_cases :
      (m : Memory) (tenant : Text) (P : Memory → Type 0)
      → P m
      → ((c : Checkpoint) → P (save_checkpoint m c))
      → P (checkpoint_tenant digest crypto signer now m tenant).0
  unfolding checkpoint_tenant
  checkpoint_tenant_cases m tenant P p q = records_cases m tenant (list_audit m tenant 0) P p q

  records_stop :
      (m : Memory) (tenant : Text) (rs : List Record) (c : Checkpoint)
      → take 1000 (chain m tenant) ≡ rs
      → latest_checkpoint m tenant ≡ ok c
      → 1000 ≤ c.seq
      → (sign_records digest crypto signer now m tenant rs).0 ≡ m
  unfolding sign_records sign_newer
  records_stop m tenant [] c e h le = refl
  records_stop m tenant (r ∷ rs) c e h le =
      elim (Bool-cases (verify_chain digest tenant (r ∷ rs)).verified) [
        | inr broken ↦ rw (broken, sign_records)
        | inl v ↦
            let (at, reached) =
              head_of-Reaches digest crypto signer now tenant (chain m tenant) 1000 r rs e v in
            let below : leb (last_record r rs).seq c.seq ≡ true =
              le→leb _ _ (omega (arith, at, length-take-le 1000 (chain m tenant))) in
            rw (v, sign_records, h, sign_newer, below)
      ]

  -- Once a tenant has a checkpoint at position 1000 or beyond, looking at the tenant never saves
  -- another one, however long its chain has grown.
  pub checkpoint_tenant_stops :
      (m : Memory) (tenant : Text) (c : Checkpoint)
      → latest_checkpoint m tenant ≡ ok c
      → 1000 ≤ c.seq
      → (checkpoint_tenant digest crypto signer now m tenant).0 ≡ m
  unfolding checkpoint_tenant
  checkpoint_tenant_stops m tenant c h le =
      records_stop m tenant (list_audit m tenant 0) c (sym (list_audit-take m tenant)) h le
