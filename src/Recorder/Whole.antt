-- ===== src/Recorder/Whole.antt =====
-- The keys of the counters are whole minutes.
use recon_sync.Common.{
  ℕ, ◌+◌, ◌≡◌, inl, inr, [], ◌∷◌, Text, lookup, insert, length, ◌==◌, ◌=?◌, if_cases, text_eq,
  nat_eq, pair_eq, arith, Bool-cases, All,
}
use recon_sync.Pipeline.{Observation, accepted, dropped, batch_failed}
use recon_sync.Store.Health.{truncate}
use recon_sync.Recorder.{Counts, Bucket, Pending, counts_or_zero, bump, observe, merged, restore}

-- The minutes of the keys are whole.
abbrev pub Whole : Pending → Type 0
Whole pending = All (λ (e : Bucket × Counts). truncate e.0.1 ≡ e.0.1) pending

truncate_idem : (t : ℕ) → truncate (truncate t) ≡ truncate t
truncate_idem t = omega arith

insert-Whole :
    (j : Bucket) (c : Counts) (pending : Pending)
    → truncate j.1 ≡ j.1
    → Whole pending
    → Whole (insert j c pending)
unfolding insert
insert-Whole j c [] e w = (e, tt)
insert-Whole j c ((i, d) ∷ pending) e w = elim (Bool-cases (i =? j)) [
  | inl f ↦ rw f (e, w.1)
  | inr f ↦ rw f (w.0, insert-Whole j c pending e w.1)
]

pub restore-Whole :
    (taken pending : Pending) → Whole taken → Whole pending → Whole (restore taken pending)
unfolding restore
restore-Whole [] pending t w = w
restore-Whole ((j, c) ∷ taken) pending t w =
    restore-Whole taken (insert j (merged (lookup j pending) c) pending) t.1
      (insert-Whole j (merged (lookup j pending) c) pending t.0 w)

bump-Whole :
    (now : ℕ) (tenant : Text) (f : Counts → Counts) (pending : Pending)
    → Whole pending
    → Whole (bump now tenant f pending)
unfolding bump
bump-Whole now tenant f pending w =
    let j : Bucket = (tenant, truncate now) in
    let c = f (counts_or_zero (lookup j pending)) in
    if_cases Whole (length tenant == 0) pending (insert j c pending) (λ e. w)
      (λ e. insert-Whole j c pending (truncate_idem now) w)

pub observe-Whole :
    (now : ℕ) (o : Observation) (pending : Pending) → Whole pending → Whole (observe now o pending)
unfolding observe
observe-Whole now (accepted tenant) pending w =
    bump-Whole now tenant (λ c. record c { received = c.received + 1 }) pending w
observe-Whole now (dropped tenant) pending w =
    bump-Whole now tenant (λ c. record c { dropped = c.dropped + 1 }) pending w
observe-Whole now (batch_failed tenant events) pending w =
    if_cases Whole (events == 0) pending _ (λ e. w)
      (λ e.
        bump-Whole now tenant (λ c. record c { handler_errors = c.handler_errors + events }) pending
          w)
