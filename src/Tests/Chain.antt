-- ===== src/Tests/Chain.antt =====
-- The properties of the audit chain, with the position of a record for its hash.
use recon_sync.Common.{
  ℕ, ◌≡◌, ◌↔◌, refl, true, Option, some, List, [], ◌∷◌, Text, ascii, lookup, text_eq,
}
use recon_sync.Domain.Transaction.{end}
use recon_sync.Audit.Chain.{Record, HashedContent, content, compute_hash, verify_chain}
use recon_sync.Audit.Tamper.{Linked, contents, verify_chain_iff, verify_chain_unique}
use recon_sync.Store.Ledger.{append_audit}
use recon_sync.Store.Ledger.Growth.{AllVerified, append_audit-AllVerified}
use recon_sync.Tests.Data.{bank, opened}

abbrev pub digest : HashedContent → Option Text
digest c = some (c.seq ∷ [])

abbrev pub entry : ℕ → Text → Record
entry n prev = record {
  id = n;
  seq = n;
  tenant_id = bank;
  event_type = ascii "reversal.claimed";
  occurred_at = 1_500;
  recorded_at = 2_000;
  actor = end;
  subject = end;
  payload = end;
  prev_hash = prev;
  hash = n ∷ [];
}

abbrev pub chain : List Record
chain = entry 1 [] ∷ entry 2 (1 ∷ []) ∷ []

verify_chain_iff_example :
    ((verify_chain digest bank chain).verified ≡ true) ↔ Linked digest 1 [] chain
verify_chain_iff_example = verify_chain_iff digest bank chain

-- The same chain, with another identifier of the row, which the hashes do not cover.
abbrev pub copied : List Record
copied = entry 1 [] ∷ record (entry 2 (1 ∷ [])) { id = 7 } ∷ []

verify_chain_unique_example : contents [] chain ≡ contents [] copied
unfolding verify_chain compute_hash content
verify_chain_unique_example =
    verify_chain_unique digest bank chain copied refl refl refl refl
      ((λ e. refl), ((λ e. refl), tt))

append_audit-AllVerified_example :
    AllVerified digest (append_audit digest 9 opened bank (entry 0 [])).0
unfolding verify_chain lookup
append_audit-AllVerified_example =
    append_audit-AllVerified digest 9 opened bank (entry 0 []) (λ tenant. refl)
