-- ===== src/Correlate/Credit.antt =====
-- internal/correlate/correlate.go: how the engine applies one credit to the store. An error that
-- `fmt.Errorf` wraps stands for its wrapper.
use recon_sync.Common.{
  ℕ, ◌+◌, ◌&&◌, Option, none, some, List, [], ◌∷◌, Text, ascii, pos, ltℤ, ◌==◌, if◌then◌else◌,
}
use recon_sync.Domain.Status.{completed, status_beq}
use recon_sync.Domain.Errors.{Error, not_found, illegal, Result, ok, err}
use recon_sync.Domain.Transaction.{Transaction, CreditEvent, target, no_target, target_status}
use recon_sync.Domain.Sensitive.Scan.{screen_string}
use recon_sync.Store.State.{Memory}
use recon_sync.Store.Credits.{apply_credit, apply_partial_credit}
use recon_sync.Store.Parking.{park_credit, peek_parked_credits, delete_parked_credit}

pub data CreditOutcome : Type 0 where
  credit_applied credit_parked credit_ignored credit_not_found : CreditOutcome

-- The `switch` of `tryApply` on the store's error.
abbrev pub outcome_of_result : Result Transaction → Result CreditOutcome
outcome_of_result (ok t) = ok credit_applied
outcome_of_result (err not_found) = ok credit_not_found
outcome_of_result (err (illegal e)) = ok credit_ignored
outcome_of_result (err e) = err e

unfoldable pub try_apply : ℕ → Memory → Text → CreditEvent → Memory × Result CreditOutcome
unfolding apply_credit apply_partial_credit target_status
try_apply clock m tenant c = elim (target_status c.status) [
  | no_target e ↦ (m, err e)
  | target status ↦
      let r =
        if ltℤ (pos 0) c.amount_minor && status_beq status completed
        then apply_partial_credit clock m tenant c
        else apply_credit clock m tenant c.transaction_id status c.credit_at in
      (r.0, outcome_of_result r.1)
]

-- The loop of `drainParked`; `n` is how many were applied.
unfoldable pub drain_loop : ℕ → Text → ℕ → Memory → List CreditEvent → Memory × Result ℕ
unfolding try_apply delete_parked_credit
drain_loop clock tenant n m [] = (m, ok n)
drain_loop clock tenant n m (pc ∷ parked) =
    let (m', outcome) = try_apply clock m tenant pc in
    let gone = delete_parked_credit m' tenant pc.transaction_id in
    elim outcome [
      | err e ↦ (m', err e)
      | ok o ↦ elim o [
        | credit_not_found ↦ drain_loop clock tenant n m' parked
        | credit_applied ↦ drain_loop clock tenant (n + 1) gone parked
        | credit_parked ↦ drain_loop clock tenant n gone parked
        | credit_ignored ↦ drain_loop clock tenant n gone parked
      ]
    ]

unfoldable pub drain_parked : ℕ → Memory → Text → List Text → Memory × Result ℕ
unfolding drain_loop peek_parked_credits
drain_parked clock m tenant ids = drain_loop clock tenant 0 m (peek_parked_credits m tenant ids)

-- The end of `applyCredit`, from what its own drain applied.
abbrev pub own_drain : Memory × Result ℕ → Memory × Result CreditOutcome
own_drain (m, err e) = (m, err e)
own_drain (m, ok n) = (m, ok (if n == 0 then credit_parked else credit_applied))

unfoldable pub correlate_credit : ℕ → Memory → Text → CreditEvent → Memory × Result CreditOutcome
unfolding try_apply park_credit drain_parked
correlate_credit clock m tenant c =
    let (m', outcome) = try_apply clock m tenant c in
    elim outcome [
      | err e ↦ (m', err e)
      | ok o ↦ elim o [
        | credit_applied ↦ (m', ok credit_applied)
        | credit_parked ↦ (m', ok credit_parked)
        | credit_ignored ↦ (m', ok credit_ignored)
        | credit_not_found ↦
            let (m'', failed) = park_credit m' tenant c in
            elim failed [
              | some e ↦ (m'', err e)
              | none ↦ own_drain (drain_parked clock m'' tenant (c.transaction_id ∷ []))
            ]
      ]
    ]

-- `screenCredit`.
unfoldable pub screen_credit : CreditEvent → Option Error
unfolding screen_string
screen_credit c = elim (screen_string (ascii "transaction_id") c.transaction_id) [
  | some e ↦ some e
  | none ↦ screen_string (ascii "provider_reference") c.provider_reference
]
