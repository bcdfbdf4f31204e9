-- ===== src/Correlate/Account.antt =====
-- A batch that is applied leaves no event unaccounted for.
use recon_sync.Common.{
  ℕ, suc, ◌+◌, ◌≤◌, ◌≡◌, ◌≢◌, refl, sym, ◌∙◌, ap, inl, inr, ◌⊎◌, none, Option, List, [], ◌∷◌, Text,
  length, length-append, arith, subst, text_eq, pair_eq,
}
use recon_sync.Domain.Errors.{Error, Result, ok, err}
use recon_sync.Domain.Transaction.{Transaction, CreditEvent}
use recon_sync.Domain.Event.{Event}
use recon_sync.Rules.{Rule}
use recon_sync.Store.State.{Memory}
use recon_sync.Store.Parking.{park_credit}
use recon_sync.Store.Debits.{UpsertResult, upsert_one, upsert_loop, upsert_debits}
use recon_sync.Correlate.Credit.{
  CreditOutcome, credit_applied, credit_parked, credit_ignored, credit_not_found, correlate_credit,
  own_drain, try_apply, drain_parked,
}
use recon_sync.Correlate.Apply.{
  Summary, Batch, Verdict, rejected, accepted_debit, accepted_credit, add_verdict, count_credit,
  apply_credits, store_debits, drain_stored, nothing_done, with_debits, apply_batch, judge_event,
  sort_events, apply_events,
}

-- How many events a summary counts.
abbrev pub counted : Summary → ℕ
counted res =
    res.debits_stored
    + res.debits_duplicate
    + res.credits_applied
    + res.credits_parked
    + res.credits_ignored
    + length res.rejections

abbrev size : Batch → ℕ
size b = length b.debits + length b.credits + length b.refused

add_verdict-size : (ev : Event) (v : Verdict) (b : Batch) → size (add_verdict ev v b) ≡ suc (size b)
add_verdict-size ev (rejected e) b = omega arith
add_verdict-size ev (accepted_debit t) b = omega arith
add_verdict-size ev (accepted_credit c) b = omega arith

own_drain_found : (r : Memory × Result ℕ) → (own_drain r).1 ≢ ok credit_not_found
own_drain_found (m, err e) = ground arith
own_drain_found (m, ok n) = ground arith

-- The engine never answers that a debit is missing: it parks the credit.
correlate_credit_found :
    (clock : ℕ) (m : Memory) (tenant : Text) (c : CreditEvent)
    → (correlate_credit clock m tenant c).1 ≢ ok credit_not_found
unfolding correlate_credit
correlate_credit_found clock m tenant c =
    let m' = (park_credit (try_apply clock m tenant c).0 tenant c).0 in
    ground (arith, own_drain_found (drain_parked clock m' tenant (c.transaction_id ∷ [])))

count_credit-counted :
    (o : CreditOutcome) (res : Summary)
    → o ≢ credit_not_found
    → counted (count_credit o res) ≡ suc (counted res)
count_credit-counted credit_applied res h = omega arith
count_credit-counted credit_parked res h = omega arith
count_credit-counted credit_ignored res h = omega arith
count_credit-counted credit_not_found res h = absurd (h refl)

result_cases {ℓ} :
    {A : Type ℓ} (r : Result A) → ((e : Error) × (r ≡ err e)) ⊎ ((a : A) × (r ≡ ok a))
result_cases (ok a) = inr (a, refl)
result_cases (err e) = inl (e, refl)

apply_credits-counted :
    (clock : ℕ) (tenant : Text) (credits : List CreditEvent) (m : Memory) (res : Summary)
    → (apply_credits clock tenant m res credits).1.1 ≡ none
    → counted (apply_credits clock tenant m res credits).1.0 ≡ counted res + length credits
unfolding apply_credits
apply_credits-counted clock tenant [] m res h = omega arith
apply_credits-counted clock tenant (c ∷ credits) m res h =
    elim (result_cases (correlate_credit clock m tenant c).1) [
      | inl (e, q) ↦ absurd (ground (arith, q, h))
      | inr (o, q) ↦
          let m' = (correlate_credit clock m tenant c).0 in
          let next : apply_credits clock tenant m res (c ∷ credits)
              ≡ apply_credits clock tenant m' (count_credit o res) credits =
            rw (q, apply_credits) refl in
          let one =
            count_credit-counted o res
              (λ z. correlate_credit_found clock m tenant c (q ∙ ap ok z)) in
          let rest =
            apply_credits-counted clock tenant credits m' (count_credit o res)
              (ap (λ (r : Memory × (Summary × Option Error)). r.1.1) (sym next) ∙ h) in
          ap (λ (r : Memory × (Summary × Option Error)). counted r.1.0) next
          ∙ omega (arith, one, rest)
    ]

abbrev handled : UpsertResult → ℕ
handled up = length up.inserted + length up.duplicates

upsert_one-handled :
    (clock : ℕ) (tenant : Text) (m : Memory) (res : UpsertResult) (t : Transaction)
    → handled (upsert_one clock tenant (m, res) t).1 ≡ suc (handled res)
unfolding upsert_one
upsert_one-handled clock tenant m res t = ground (
  arith,
  length-append res.inserted (t.transaction_id ∷ []),
  length-append res.duplicates (t.transaction_id ∷ []),
)

upsert_loop-handled :
    (clock : ℕ) (tenant : Text) (ts : List Transaction) (s : Memory × UpsertResult)
    → handled (upsert_loop clock tenant s ts).1 ≡ handled s.1 + length ts
unfolding upsert_loop
upsert_loop-handled clock tenant [] s = omega arith
upsert_loop-handled clock tenant (t ∷ ts) (m, res) = omega (
  arith,
  upsert_one-handled clock tenant m res t,
  upsert_loop-handled clock tenant ts (upsert_one clock tenant (m, res) t),
)

store_debits-handled :
    (clock : ℕ) (m : Memory) (tenant : Text) (ts : List Transaction) (up : UpsertResult)
    → (store_debits clock m tenant ts).1 ≡ ok up
    → handled up ≡ length ts
unfolding upsert_debits
store_debits-handled clock m tenant [] up h = ground arith
store_debits-handled clock m tenant (t ∷ ts) up h = ground (
  arith,
  upsert_loop-handled clock tenant (t ∷ ts) (m, record { inserted = []; duplicates = [] }),
)

sort_events-size :
    (sha : Text → Text) (tenant : Text) (rules : List Rule) (salt : Text) (events : List Event)
    → size (sort_events sha tenant rules salt events) ≡ length events
unfolding sort_events
sort_events-size sha tenant rules salt [] = refl
sort_events-size sha tenant rules salt (ev ∷ events) =
    add_verdict-size ev (judge_event sha tenant rules salt ev)
      (sort_events sha tenant rules salt events)
    ∙ ap suc (sort_events-size sha tenant rules salt events)

apply_batch-counted :
    (clock : ℕ) (m : Memory) (tenant : Text) (b : Batch)
    → (apply_batch clock m tenant b).1.1 ≡ none
    → size b ≤ counted (apply_batch clock m tenant b).1.0
unfolding apply_batch
apply_batch-counted clock m tenant b h =
    let m1 = (store_debits clock m tenant b.debits).0 in
    elim (result_cases (store_debits clock m tenant b.debits).1) [
      | inl (e, q) ↦ absurd (ground (arith, q, h))
      | inr (up, q) ↦ elim (result_cases (drain_stored clock m1 tenant up.inserted).1) [
        | inl (e, r) ↦ absurd (ground (arith, q, r, h))
        | inr (n, r) ↦
            let m2 = (drain_stored clock m1 tenant up.inserted).0 in
            let res = record (with_debits up (nothing_done b.refused)) { credits_applied = n } in
            let next : apply_batch clock m tenant b ≡ apply_credits clock tenant m2 res b.credits =
              rw (q, apply_batch, r) refl in
            let rest =
              apply_credits-counted clock tenant b.credits m2 res
                (ap (λ (s : Memory × (Summary × Option Error)). s.1.1) (sym next) ∙ h) in
            let handled_all = store_debits-handled clock m tenant b.debits up q in
            subst (λ (s : Memory × (Summary × Option Error)). size b ≤ counted s.1.0) (sym next)
              (omega (arith, rest, handled_all))
      ]
    ]

-- If a batch is applied without an error of the store or of a load, every event of it is counted
-- in the summary, as a debit stored or duplicate, a credit applied, parked or ignored, or a
-- rejection: the counts are no fewer than the events, whatever the store held.
pub apply_events-counted :
    (sha : Text → Text) (clock : ℕ) (m : Memory) (tenant : Text) (rules : List Rule) (salt : Text)
    (events : List Event)
    → (apply_events sha clock m tenant (ok rules) (ok salt) events).1.1 ≡ none
    → length events ≤ counted (apply_events sha clock m tenant (ok rules) (ok salt) events).1.0
unfolding apply_events
apply_events-counted sha clock m tenant rules salt events h =
    let b = sort_events sha tenant rules salt events in
    let all = apply_batch-counted clock m tenant b h in
    omega (arith, all, sort_events-size sha tenant rules salt events)
