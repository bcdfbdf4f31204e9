-- ===== src/Store/Lifecycle.antt =====
-- Every method of the store keeps its map of transactions a map, and moves them only along the
-- state machine.
use recon_sync.Common.{
  ℕ, true, ◌≡◌, refl, sym, ◌⊎◌, inl, inr, none, some, List, [], ◌∷◌, lookup, insert, arith,
  Distinct, Distinct-insert, Option-cases, Bool-cases, text_eq, pair_eq, subst, Text, contains,
}
use recon_sync.Domain.Status.{
  Status, pending_debit, completed, suspect, can_transition, transition, is_open,
}
use recon_sync.Domain.Status.Machine.{Reach, here, step}
use recon_sync.Domain.Transaction.{Transaction, CreditEvent}
use recon_sync.Rules.{differs}
use recon_sync.Store.State.{Key, Memory}
use recon_sync.Store.Debits.{
  UpsertResult, upsert_one, upsert_loop, upsert_debits, stored, is_duplicate, same_tenant,
}
use recon_sync.Store.Credits.{apply_credit, apply_partial_credit, accumulate, settle, with_credit}
use recon_sync.Store.Reversals.{mark_reversal, marked}
use recon_sync.Store.Evolution.{
  Moved, Evolves, Evolves-refl, Evolves-trans, Evolves-update, Evolves-add,
}

-- What every method guarantees of the transactions: the map stays a map, and evolves.
pub record Sound (m m' : Memory) : Type 0 where
  pub distinct : Distinct m.by_tenant → Distinct m'.by_tenant
  pub evolves : Evolves m.by_tenant m'.by_tenant

pub Sound-same : {m m' : Memory} → m'.by_tenant ≡ m.by_tenant → Sound m m'
Sound-same {m} {m'} h = record {
  distinct = λ d. subst (λ x. Distinct x) (sym h) d;
  evolves = subst (λ x. Evolves m.by_tenant x) (sym h) (Evolves-refl m.by_tenant);
}

pub Sound-trans : {l m n : Memory} → Sound l m → Sound m n → Sound l n
Sound-trans f g = record {
  distinct = λ d. g.distinct (f.distinct d);
  evolves = Evolves-trans f.evolves g.evolves;
}

-- A method that writes one transaction that moved.
pub Sound-update :
    (m m' : Memory) (k : Key) (t t' : Transaction)
    → lookup k m.by_tenant ≡ some t
    → Moved t t'
    → m'.by_tenant ≡ insert k t' m.by_tenant
    → Sound m m'
Sound-update m m' k t t' h mv e = record {
  distinct = λ d. subst (λ x. Distinct x) (sym e) (Distinct-insert k t' m.by_tenant d);
  evolves = subst (λ x. Evolves m.by_tenant x) (sym e) (Evolves-update k t t' m.by_tenant h mv);
}

Sound-add :
    (m m' : Memory) (k : Key) (t : Transaction)
    → lookup k m.by_tenant ≡ none
    → t.status ≡ pending_debit
    → m'.by_tenant ≡ insert k t m.by_tenant
    → Sound m m'
Sound-add m m' k t h s e = record {
  distinct = λ d. subst (λ x. Distinct x) (sym e) (Distinct-insert k t m.by_tenant d);
  evolves = subst (λ x. Evolves m.by_tenant x) (sym e) (Evolves-add k t m.by_tenant h s);
}

upsert_one-Sound :
    (clock : ℕ) (tenant : Text) (m : Memory) (res : UpsertResult) (t : Transaction)
    → Sound m (upsert_one clock tenant (m, res) t).0
unfolding upsert_one
upsert_one-Sound clock tenant m res t = elim (Bool-cases (is_duplicate tenant m t)) [
  | inl e ↦ rw e (Sound-same refl)
  | inr e ↦
      rw e (Sound-add m _ (tenant, t.transaction_id) (stored clock m t) (ground arith) refl refl)
]

upsert_loop-Sound :
    (clock : ℕ) (tenant : Text) (m : Memory) (res : UpsertResult) (ts : List Transaction)
    → Sound m (upsert_loop clock tenant (m, res) ts).0
unfolding upsert_loop
upsert_loop-Sound clock tenant m res [] = Sound-same refl
upsert_loop-Sound clock tenant m res (t ∷ ts) =
    let (m', res') = upsert_one clock tenant (m, res) t in
    Sound-trans (upsert_one-Sound clock tenant m res t) (upsert_loop-Sound clock tenant m' res' ts)

pub upsert_debits-Sound :
    (clock : ℕ) (m : Memory) (tenant : Text) (ts : List Transaction)
    → Sound m (upsert_debits clock m tenant ts).0
unfolding upsert_debits
upsert_debits-Sound clock m tenant ts = elim (Bool-cases (same_tenant tenant ts)) [
  | inl e ↦ rw e (upsert_loop-Sound clock tenant m (record { inserted = []; duplicates = [] }) ts)
  | inr e ↦ rw e (Sound-same refl)
]

one_edge : {s t : Status} → can_transition s t ≡ true → Reach s t
one_edge h = step here h

transition-none : (s t : Status) → transition s t ≡ none → can_transition s t ≡ true
unfolding transition
transition-none s t h = ground arith

pub apply_credit-Sound :
    (clock : ℕ) (m : Memory) (tenant id : Text) (target : Status) (at : ℕ)
    → Sound m (apply_credit clock m tenant id target at).0
unfolding apply_credit
apply_credit-Sound clock m tenant id target at =
    elim (Option-cases (lookup (tenant, id) m.by_tenant)) [
      | inl e ↦ rw (e, apply_credit) (Sound-same refl)
      | inr (t, e) ↦ elim (Option-cases (transition t.status target)) [
        | inl f ↦
            rw (e, apply_credit, f)
              (Sound-update m _ (tenant, id) t (with_credit target at clock t) e
                (refl, one_edge (transition-none t.status target f)) refl)
        | inr (x, f) ↦ rw (e, apply_credit, f) (Sound-same refl)
      ]
    ]

marked-Moved :
    (target : Status) (at clock : ℕ) (t : Transaction)
    → can_transition t.status target ≡ true
    → Moved t (marked target at clock t)
marked-Moved Status.reversal_pending at clock t h = (refl, one_edge h)
marked-Moved target at clock t h = (refl, one_edge h)

pub mark_reversal-Sound :
    (clock : ℕ) (m : Memory) (tenant id : Text) (target : Status) (at : ℕ)
    → Sound m (mark_reversal clock m tenant id target at).0
unfolding mark_reversal
mark_reversal-Sound clock m tenant id target at =
    elim (Option-cases (lookup (tenant, id) m.by_tenant)) [
      | inl e ↦ rw (e, mark_reversal) (Sound-same refl)
      | inr (t, e) ↦ elim (Option-cases (transition t.status target)) [
        | inl f ↦
            rw (e, mark_reversal, f)
              (Sound-update m _ (tenant, id) t (marked target at clock t) e
                (marked-Moved target at clock t (transition-none t.status target f)) refl)
        | inr (x, f) ↦ rw (e, mark_reversal, f) (Sound-same refl)
      ]
    ]

open_to_suspect : (s : Status) → is_open s ≡ true → can_transition s suspect ≡ true
unfolding can_transition is_open
open_to_suspect s h = ground arith

open_to_completed : (s : Status) → is_open s ≡ true → can_transition s completed ≡ true
unfolding can_transition is_open
open_to_completed s h = ground arith

settle_cases :
    (t : Transaction) → (settle t ≡ suspect) ⊎ ((settle t ≡ completed) ⊎ (settle t ≡ t.status))
unfolding settle
settle_cases t = ground arith

settle-Reach : (t : Transaction) → is_open t.status ≡ true → Reach t.status (settle t)
settle-Reach t h = elim (settle_cases t) [
  | inl e ↦ subst (λ s. Reach t.status s) (sym e) (one_edge (open_to_suspect t.status h))
  | inr (inl e) ↦ subst (λ s. Reach t.status s) (sym e) (one_edge (open_to_completed t.status h))
  | inr (inr e) ↦ subst (λ s. Reach t.status s) (sym e) here
]

pub accumulate-Moved :
    (clock : ℕ) (c : CreditEvent) (t : Transaction)
    → is_open t.status ≡ true
    → Moved t (accumulate clock c t)
unfolding accumulate
accumulate-Moved clock c t h = elim (Bool-cases (differs c.currency t.currency)) [
  | inl e ↦ rw e (refl, one_edge (open_to_suspect t.status h))
  | inr e ↦ rw e (refl, settle-Reach _ h)
]

pub apply_partial_credit-Sound :
    (clock : ℕ) (m : Memory) (tenant : Text) (c : CreditEvent)
    → Sound m (apply_partial_credit clock m tenant c).0
unfolding apply_partial_credit
apply_partial_credit-Sound clock m tenant c =
    elim (Option-cases (lookup (tenant, c.transaction_id) m.by_tenant)) [
      | inl e ↦ rw (e, apply_partial_credit) (Sound-same refl)
      | inr (t, e) ↦ elim (Bool-cases (is_open t.status)) [
        | inr f ↦ rw (e, apply_partial_credit, f) (Sound-same refl)
        | inl f ↦ elim (Bool-cases (contains m.applied (tenant, c.idempotency_key))) [
          | inl g ↦ rw (e, apply_partial_credit, f, g) (Sound-same refl)
          | inr g ↦
              rw (e, apply_partial_credit, f, g)
                (Sound-update m _ (tenant, c.transaction_id) t (accumulate clock c t) e
                  (accumulate-Moved clock c t f) refl)
        ]
      ]
    ]
