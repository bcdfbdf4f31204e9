-- ===== src/Tests/StoreRuns.antt =====
-- The properties of the store, on the store that holds one transfer.
use recon_sync.Common.{
  ℕ, ◌≡◌, refl, ◌≤◌, ◌⊎◌, true, false, some, List, [], ◌∷◌, Text, ascii, pos, lookup, length,
  Distinct, All, map, ltℤ, text_eq, pair_eq, contains, arith,
}
use recon_sync.Domain.Status.{pending_debit, reversal_pending, completed, is_open}
use recon_sync.Domain.Status.Machine.{is_dispatched}
use recon_sync.Domain.Transaction.{Transaction, expected_credit}
use recon_sync.Store.State.{Memory, ReversalClaim}
use recon_sync.Store.Evolution.{Evolves}
use recon_sync.Store.Calls.{Call, claim, mark, run}
use recon_sync.Store.Credits.{accumulate}
use recon_sync.Store.Credits.Totals.{pay_all, pay_all-total, accumulate_wraps}
use recon_sync.Store.Claims.{claim_reversal, new_claim}
use recon_sync.Store.Claims.Once.{
  ClaimCall, take_claim, release, confirm_at, run_claims, run_claims-confirmed, claim_reversal-once,
}
use recon_sync.Store.Expiry.{Entry, is_due, due_entries, claimed, claim_expired}
use recon_sync.Store.Sweep.{Kept}
use recon_sync.Store.Claiming.{Due, Judged, claim_expired_exact}
use recon_sync.Store.Runs.{run-Evolves, run-is_dispatched, run-claim_expired}
use recon_sync.Tests.Data.{bank, tx1, key1, transfer, holding, opened, credit_of}

abbrev calls : List (ℕ × Call)
calls = (25, claim 25 10 []) ∷ (26, mark bank tx1 reversal_pending 26) ∷ []

run-Evolves_example :
    Distinct (run opened calls).by_tenant × Evolves opened.by_tenant (run opened calls).by_tenant
unfolding lookup
run-Evolves_example = run-Evolves opened calls (refl, tt)

abbrev dispatched : Memory
dispatched = holding (transfer reversal_pending)

run-is_dispatched_example :
    (t' : Transaction) × (lookup key1 (run dispatched calls).by_tenant ≡ some t')
    × (is_dispatched t'.status ≡ true)
unfolding lookup
run-is_dispatched_example =
    run-is_dispatched dispatched calls key1 (transfer reversal_pending) (refl, tt) refl refl

run-claim_expired_example :
    All
      (λ (e : Entry).
        (t' : Transaction) × (lookup e.0 (run (claim_expired opened 25 10 []).0 calls).by_tenant
          ≡ some t')
        × (is_open t'.status ≡ false)
        × ((now' : ℕ) (skip' : List Text) → is_due now' skip' (e.0, t') ≡ false))
      (due_entries opened 25 10 [])
unfolding lookup
run-claim_expired_example = run-claim_expired opened 25 10 [] calls (refl, tt)

claim_expired_exact_example :
    let es = due_entries opened 25 10 [] in
    let (m', out) = claim_expired opened 25 10 [] in
    (out ≡ map (λ (e : Entry). claimed 25 opened e.1) es)
    × All (Kept 25 opened m') es
    × All (Due opened 25 []) es
    × ((◌≡◌ {A = ℕ} 10 0) ⊎ (length es ≤ 10))
    × All (Judged 25 opened) es
unfolding lookup
claim_expired_exact_example = claim_expired_exact opened 25 10 [] (refl, tt)

pay_all-total_example :
    (t' : Transaction) × (lookup key1
        (pay_all 15 opened bank
          (credit_of 200 (ascii "c1") ∷ credit_of 300 (ascii "c2") ∷ [])).by_tenant
      ≡ some t')
    × (t'.credited_minor ≡ pos 500)
    × (t'.status ≡ completed)
unfolding lookup contains is_open expected_credit
pay_all-total_example =
    pay_all-total 15 bank tx1 500 (credit_of 200 (ascii "c1")) (credit_of 300 (ascii "c2") ∷ [])
      opened (transfer pending_debit) 0 refl refl refl refl (omega arith) (omega arith)
      ((refl, refl, refl), ((refl, refl, refl), tt)) (refl, (refl, tt))

-- A transfer to which the largest amount but seven was credited.
abbrev nearly : Transaction
nearly = record (transfer pending_debit) { credited_minor = pos 9_223_372_036_854_775_800 }

accumulate_wraps_example :
    (ltℤ (accumulate 15 (credit_of 100 (ascii "c1")) nearly).credited_minor (pos 0) ≡ true)
    × ((accumulate 15 (credit_of 100 (ascii "c1")) nearly).status ≡ pending_debit)
unfolding expected_credit
accumulate_wraps_example =
    accumulate_wraps 15 (credit_of 100 (ascii "c1")) nearly 9_223_372_036_854_775_800 100 500 refl
      refl refl refl (omega arith) (omega arith) (omega arith)

abbrev claim_calls : List ClaimCall
claim_calls =
    take_claim bank tx1 (ascii "w2") (ascii "t2") 41
    ∷ confirm_at bank tx1 42
    ∷ release bank (ascii "tx2")
    ∷ []

claim_reversal-once_example :
    let first = claim_reversal opened bank tx1 (ascii "w1") (ascii "t1") 40 in
    let later =
      claim_reversal (run_claims first.0 claim_calls) bank tx1 (ascii "w3") (ascii "t3") 43 in
    (first.1.1 ≡ true)
    × (later.1.1 ≡ false)
    × (later.1.0.claim_token ≡ ascii "t1")
    × (later.1.0.claimed_by ≡ ascii "w1")
unfolding lookup
claim_reversal-once_example =
    claim_reversal-once opened bank tx1 (ascii "w1") (ascii "t1") (ascii "w3") (ascii "t3") 40 43
      claim_calls refl (tt, (tt, (refl, tt)))

abbrev settled_claim : ReversalClaim
settled_claim = record (new_claim bank tx1 (ascii "w1") (ascii "t1") 40) { confirmed_at = some 41 }

abbrev claimed_store : Memory
claimed_store = record opened { claims = (key1, settled_claim) ∷ [] }

run_claims-confirmed_example :
    lookup key1 (run_claims claimed_store (release bank tx1 ∷ claim_calls)).claims
    ≡ some settled_claim
unfolding lookup
run_claims-confirmed_example =
    run_claims-confirmed claimed_store (release bank tx1 ∷ claim_calls) key1 settled_claim 41 refl
      refl
