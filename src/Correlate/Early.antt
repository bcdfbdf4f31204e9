-- ===== src/Correlate/Early.antt =====
-- A credit that arrives before its debit.
use recon_sync.Common.{
  ℕ, ◌≡◌, refl, ap, ◌∙◌, inl, inr, true, none, some, List, [], ◌∷◌, Text, Dict, lookup, insert,
  arith, text_eq, pair_eq, lookup-insert_self, Bool-cases, ◌⊎◌, text_beq_iff, lookup-delete,
  beq_refl,
}
use recon_sync.Domain.Status.{Status}
use recon_sync.Domain.Errors.{Result, ok}
use recon_sync.Domain.Transaction.{Transaction, CreditEvent, target_status, credit_valid}
use recon_sync.Store.State.{Key, Memory}
use recon_sync.Store.Credits.{apply_credit, apply_partial_credit}
use recon_sync.Store.Parking.{park_credit, peek_parked_credits, delete_parked_credit}
use recon_sync.Store.Debits.{UpsertResult, upsert_one, upsert_loop, upsert_debits, is_duplicate}
use recon_sync.Correlate.Credit.{
  CreditOutcome, credit_applied, credit_parked, credit_ignored, credit_not_found, try_apply,
  drain_loop, drain_parked, correlate_credit,
}

abbrev with_parked : Dict Key CreditEvent → Memory → Memory
with_parked p m = record m { parked = p }

apply_credit_parked :
    (clock : ℕ) (m : Memory) (p : Dict Key CreditEvent) (tenant id : Text) (s : Status) (at : ℕ)
    → apply_credit clock (with_parked p m) tenant id s at ≡ (
      with_parked p (apply_credit clock m tenant id s at).0,
      (apply_credit clock m tenant id s at).1,
    )
unfolding apply_credit
apply_credit_parked clock m p tenant id s at = ground arith

apply_partial_credit_parked :
    (clock : ℕ) (m : Memory) (p : Dict Key CreditEvent) (tenant : Text) (c : CreditEvent)
    → apply_partial_credit clock (with_parked p m) tenant c ≡ (
      with_parked p (apply_partial_credit clock m tenant c).0,
      (apply_partial_credit clock m tenant c).1,
    )
unfolding apply_partial_credit
apply_partial_credit_parked clock m p tenant c = ground arith

-- What a credit does to a store does not depend on the credits that are parked in it.
try_apply_parked :
    (clock : ℕ) (m : Memory) (p : Dict Key CreditEvent) (tenant : Text) (c : CreditEvent)
    → try_apply clock (with_parked p m) tenant c
      ≡ (with_parked p (try_apply clock m tenant c).0, (try_apply clock m tenant c).1)
unfolding try_apply
try_apply_parked clock m p tenant c =
    ground
      (arith, apply_credit_parked clock m p tenant, apply_partial_credit_parked clock m p tenant c)

try_apply-absent :
    (clock : ℕ) (m : Memory) (tenant : Text) (c : CreditEvent)
    → lookup (tenant, c.transaction_id) m.by_tenant ≡ none
    → credit_valid c.status ≡ true
    → try_apply clock m tenant c ≡ (m, ok credit_not_found)
unfolding try_apply apply_credit apply_partial_credit target_status credit_valid
try_apply-absent clock m tenant c h v = ground arith

try_apply-present :
    (clock : ℕ) (m : Memory) (tenant : Text) (c : CreditEvent) (t : Transaction)
    → lookup (tenant, c.transaction_id) m.by_tenant ≡ some t
    → credit_valid c.status ≡ true
    → ((try_apply clock m tenant c).1 ≡ ok credit_applied)
      ⊎ ((try_apply clock m tenant c).1 ≡ ok credit_ignored)
unfolding try_apply apply_credit apply_partial_credit target_status credit_valid
try_apply-present clock m tenant c t h v = ground arith

peek_one :
    (m : Memory) (tenant : Text) (c : CreditEvent)
    → lookup (tenant, c.transaction_id) m.parked ≡ some c
    → peek_parked_credits m tenant (c.transaction_id ∷ []) ≡ c ∷ []
unfolding peek_parked_credits
peek_one m tenant c h = rw (h, peek_parked_credits) refl

-- A drain of one transaction whose credit is parked, with and without its debit.
drain_waits :
    (clock : ℕ) (m : Memory) (tenant : Text) (c : CreditEvent)
    → lookup (tenant, c.transaction_id) m.parked ≡ some c
    → try_apply clock m tenant c ≡ (m, ok credit_not_found)
    → drain_parked clock m tenant (c.transaction_id ∷ []) ≡ (m, ok 0)
unfolding drain_parked drain_loop
drain_waits clock m tenant c h a = ground (arith, peek_one m tenant c h)

drain_resolves :
    (clock : ℕ) (m : Memory) (tenant : Text) (c : CreditEvent) (n : Memory)
    → lookup (tenant, c.transaction_id) m.parked ≡ some c
    → (try_apply clock m tenant c ≡ (n, ok credit_applied))
      ⊎ (try_apply clock m tenant c ≡ (n, ok credit_ignored))
    → (drain_parked clock m tenant (c.transaction_id ∷ [])).0
      ≡ delete_parked_credit n tenant c.transaction_id
unfolding drain_parked drain_loop
drain_resolves clock m tenant c n h a = ground (arith, peek_one m tenant c h)

park_fresh :
    (m : Memory) (tenant : Text) (c : CreditEvent)
    → c.tenant_id ≡ tenant
    → lookup (tenant, c.transaction_id) m.parked ≡ none
    → park_credit m tenant c ≡ (with_parked (insert (tenant, c.transaction_id) c m.parked) m, none)
unfolding park_credit
park_fresh m tenant c q h = ground (arith, text_beq_iff c.tenant_id tenant)

-- A credit without its debit is parked, and the store changes in nothing else.
correlate_credit-parks :
    (clock : ℕ) (m : Memory) (tenant : Text) (c : CreditEvent)
    → lookup (tenant, c.transaction_id) m.by_tenant ≡ none
    → lookup (tenant, c.transaction_id) m.parked ≡ none
    → c.tenant_id ≡ tenant
    → credit_valid c.status ≡ true
    → correlate_credit clock m tenant c
      ≡ (with_parked (insert (tenant, c.transaction_id) c m.parked) m, ok credit_parked)
unfolding correlate_credit
correlate_credit-parks clock m tenant c h g q v =
    let m' = with_parked (insert (tenant, c.transaction_id) c m.parked) m in
    let waits =
      drain_waits clock m' tenant c (lookup-insert_self (tenant, c.transaction_id) c m.parked)
        (try_apply-absent clock m' tenant c h v) in
    ground (arith, try_apply-absent clock m tenant c h v, park_fresh m tenant c q g, waits)

upsert_loop_parked :
    (clock : ℕ) (p : Dict Key CreditEvent) (tenant : Text) (ts : List Transaction) (m : Memory)
    (res : UpsertResult)
    → (upsert_loop clock tenant (with_parked p m, res) ts).0
      ≡ with_parked p (upsert_loop clock tenant (m, res) ts).0
unfolding upsert_loop upsert_one
upsert_loop_parked clock p tenant [] m res = refl
upsert_loop_parked clock p tenant (t ∷ ts) m res = elim (Bool-cases (is_duplicate tenant m t)) [
  | inl e ↦ rw (e, upsert_loop, upsert_one) (upsert_loop_parked clock p tenant ts m _)
  | inr e ↦ rw (e, upsert_loop, upsert_one) (upsert_loop_parked clock p tenant ts _ _)
]

upsert_debits_parked :
    (clock : ℕ) (m : Memory) (p : Dict Key CreditEvent) (tenant : Text) (ts : List Transaction)
    → (upsert_debits clock (with_parked p m) tenant ts).0
      ≡ with_parked p (upsert_debits clock m tenant ts).0
unfolding upsert_debits
upsert_debits_parked clock m p tenant ts =
    ground
      (arith, upsert_loop_parked clock p tenant ts m (record { inserted = []; duplicates = [] }))

-- A credit without its debit, of which none is parked, is parked. Whatever debits are then stored,
-- if its debit is among them, draining the parked credit leaves the transactions that applying
-- the credit after the debits would have left, and it is no longer parked.
pub early_credit :
    (clock clock' clock'' : ℕ) (m : Memory) (tenant : Text) (c : CreditEvent)
    (ts : List Transaction) (t : Transaction)
    → lookup (tenant, c.transaction_id) m.by_tenant ≡ none
    → lookup (tenant, c.transaction_id) m.parked ≡ none
    → c.tenant_id ≡ tenant
    → credit_valid c.status ≡ true
    → lookup (tenant, c.transaction_id) (upsert_debits clock' m tenant ts).0.by_tenant ≡ some t
    → let early = correlate_credit clock m tenant c in
      let late = (upsert_debits clock' early.0 tenant ts).0 in
      let drained = (drain_parked clock'' late tenant (c.transaction_id ∷ [])).0 in
      let direct = (try_apply clock'' (upsert_debits clock' m tenant ts).0 tenant c).0 in
      (early.1 ≡ ok credit_parked)
      × (drained.by_tenant ≡ direct.by_tenant)
      × (drained.applied ≡ direct.applied)
      × (lookup (tenant, c.transaction_id) drained.parked ≡ none)
unfolding delete_parked_credit
early_credit clock clock' clock'' m tenant c ts t h g q v i =
    let k : Key = (tenant, c.transaction_id) in
    let p = insert k c m.parked in
    let n = (upsert_debits clock' m tenant ts).0 in
    let direct = try_apply clock'' n tenant c in
    let parks = correlate_credit-parks clock m tenant c h g q v in
    let late : (upsert_debits clock' (correlate_credit clock m tenant c).0 tenant ts).0
        ≡ with_parked p n =
      ap (λ (r : Memory × Result CreditOutcome). (upsert_debits clock' r.0 tenant ts).0) parks
      ∙ upsert_debits_parked clock' m p tenant ts in
    let commutes = try_apply_parked clock'' n p tenant c in
    let resolved : (try_apply clock'' (with_parked p n) tenant c
          ≡ (with_parked p direct.0, ok credit_applied))
        ⊎ (try_apply clock'' (with_parked p n) tenant c
            ≡ (with_parked p direct.0, ok credit_ignored)) =
      elim (try_apply-present clock'' n tenant c t i v) [
        | inl e ↦ inl (commutes ∙ ap (λ (o : Result CreditOutcome). (with_parked p direct.0, o)) e)
        | inr e ↦ inr (commutes ∙ ap (λ (o : Result CreditOutcome). (with_parked p direct.0, o)) e)
      ] in
    let drained =
      ap (λ (s : Memory). (drain_parked clock'' s tenant (c.transaction_id ∷ [])).0) late
      ∙ drain_resolves clock'' (with_parked p n) tenant c (with_parked p direct.0)
          (lookup-insert_self k c m.parked) resolved in
    (
      ap (λ (r : Memory × Result CreditOutcome). r.1) parks,
      ap (λ (s : Memory). s.by_tenant) drained,
      ap (λ (s : Memory). s.applied) drained,
      ap (λ (s : Memory). lookup k s.parked) drained
          ∙ ground (arith, lookup-delete k k p, beq_refl k),
    )
