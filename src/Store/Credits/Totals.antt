-- ===== src/Store/Credits/Totals.antt =====
-- What a run of credits that state their amounts adds up to.
use recon_sync.Common.{
  ℕ, ◌+◌, ◌^◌, ◌≤◌, ◌<◌, true, false, ◌≡◌, refl, sym, inl, inr, some, List, [], ◌∷◌, Text, lookup,
  insert, contains, ℤ, pos, negsuc, pos_part, ltℤ, add64, add64_exact, add64_wraps, if◌then◌else◌,
  ltb, ◌==◌, All, arith, text_eq, pair_eq, Option-cases, Bool-cases, lookup-insert_self, beq_refl,
  subst,
}
use recon_sync.Domain.Status.{Status, completed, suspect, is_open}
use recon_sync.Domain.Transaction.{Transaction, CreditEvent, expected_credit}
use recon_sync.Rules.{differs}
use recon_sync.Store.State.{Key, Memory}
use recon_sync.Store.Credits.{accumulate, settle, apply_partial_credit}

contains-head : (k : Key) (ks : List Key) → contains (k ∷ ks) k ≡ true
unfolding contains
contains-head k ks = rw (beq_refl k)

-- Delivering a credit again, at any later time, changes nothing: the second call leaves the store
-- as the first one left it.
pub apply_partial_credit_idem :
    (clock clock' : ℕ) (m : Memory) (tenant : Text) (c : CreditEvent)
    → let once = (apply_partial_credit clock m tenant c).0 in
      (apply_partial_credit clock' once tenant c).0 ≡ once
unfolding apply_partial_credit
apply_partial_credit_idem clock clock' m tenant c =
    elim (Option-cases (lookup (tenant, c.transaction_id) m.by_tenant)) [
      | inl e ↦ ground arith
      | inr (t, e) ↦ elim (Bool-cases (is_open t.status)) [
        | inr f ↦ ground arith
        | inl f ↦ elim (Bool-cases (contains m.applied (tenant, c.idempotency_key))) [
          | inl g ↦ ground arith
          | inr g ↦ ground (
            arith,
            lookup-insert_self (tenant, c.transaction_id) (accumulate clock c t) m.by_tenant,
            contains-head (tenant, c.idempotency_key) m.applied,
          )
        ]
      ]
    ]

-- The verdict on a total, against what is expected.
abbrev verdict : Status → ℕ → ℕ → Status
verdict s total due = if ltb due total then suspect else if total == due then completed else s

abbrev OutcomeFits : Transaction → Transaction → ℕ → ℕ → Type 0
OutcomeFits t t' total due =
    (t'.credited_minor ≡ pos total)
    × (t'.status ≡ verdict t.status total due)
    × (expected_credit t' ≡ pos due)
    × (t'.currency ≡ t.currency)

accumulate_exact :
    (clock : ℕ) (c : CreditEvent) (t : Transaction) (a b due : ℕ)
    → differs c.currency t.currency ≡ false
    → t.credited_minor ≡ pos a
    → c.amount_minor ≡ pos b
    → expected_credit t ≡ pos due
    → a + b < 2 ^ 63
    → OutcomeFits t (accumulate clock c t) (a + b) due
unfolding accumulate settle expected_credit
accumulate_exact clock c t a b due same ea eb ed h =
    let sum : add64 t.credited_minor c.amount_minor ≡ pos (a + b) =
      rw (ea, eb) (add64_exact a b h) in
    ground (arith, sum)

-- The credits of a transaction, each of a positive amount in its currency or in none that is named.
abbrev pub Pays : Text → Transaction → CreditEvent → Type 0
Pays id t c =
    (c.transaction_id ≡ id)
    × (differs c.currency t.currency ≡ false)
    × (ltℤ (pos 0) c.amount_minor ≡ true)

abbrev pub total : List CreditEvent → ℕ
total [] = 0
total (c ∷ cs) = pos_part c.amount_minor + total cs

-- No idempotency key was counted before, or comes twice.
abbrev pub FreshKeys : List Key → Text → List CreditEvent → Type 0
FreshKeys keys tenant [] = Unit
FreshKeys keys tenant (c ∷ cs) =
    (contains keys (tenant, c.idempotency_key) ≡ false)
    × FreshKeys ((tenant, c.idempotency_key) ∷ keys) tenant cs

-- The credits, one after another.
abbrev pub pay_all : ℕ → Memory → Text → List CreditEvent → Memory
pay_all clock m tenant [] = m
pay_all clock m tenant (c ∷ cs) = pay_all clock (apply_partial_credit clock m tenant c).0 tenant cs

paid : ℕ → Memory → Text → CreditEvent → Transaction → Memory
paid clock m tenant c t = record m {
  applied = (tenant, c.idempotency_key) ∷ m.applied;
  by_tenant = insert (tenant, c.transaction_id) (accumulate clock c t) m.by_tenant;
}

partial_step :
    (clock : ℕ) (m : Memory) (tenant : Text) (c : CreditEvent) (t : Transaction)
    → lookup (tenant, c.transaction_id) m.by_tenant ≡ some t
    → is_open t.status ≡ true
    → contains m.applied (tenant, c.idempotency_key) ≡ false
    → (apply_partial_credit clock m tenant c).0 ≡ paid clock m tenant c t
unfolding apply_partial_credit paid
partial_step clock m tenant c t e f g = ground arith

amount_pos : (x : ℤ) → ltℤ (pos 0) x ≡ true → (x ≡ pos (pos_part x)) × (0 < pos_part x)
amount_pos (pos n) h = ground arith
amount_pos (negsuc n) h = ground arith

Pays-currency :
    (id : Text) (t u : Transaction) (cs : List CreditEvent)
    → u.currency ≡ t.currency
    → All (Pays id t) cs
    → All (Pays id u) cs
Pays-currency id t u [] e h = tt
Pays-currency id t u (c ∷ cs) e h = ((h.0.0, rw e h.0.1, h.0.2), Pays-currency id t u cs e h.1)

-- One payment that does not go over what is expected: the store after it, and its transaction.
record Step (m m' : Memory) (tenant id : Text) (c : CreditEvent) (t : Transaction) (a due : ℕ)
    : Type 0 where
  after : Transaction
  found : lookup (tenant, id) m'.by_tenant ≡ some after
  marks : m'.applied ≡ (tenant, c.idempotency_key) ∷ m.applied
  fits : OutcomeFits t after (a + pos_part c.amount_minor) due

pay-Step :
    (clock : ℕ) (m : Memory) (tenant id : Text) (c : CreditEvent) (t : Transaction) (a due : ℕ)
    → lookup (tenant, id) m.by_tenant ≡ some t
    → is_open t.status ≡ true
    → contains m.applied (tenant, c.idempotency_key) ≡ false
    → Pays id t c
    → t.credited_minor ≡ pos a
    → expected_credit t ≡ pos due
    → a + pos_part c.amount_minor < 2 ^ 63
    → Step m (apply_partial_credit clock m tenant c).0 tenant id c t a due
unfolding paid
pay-Step clock m tenant id c t a due e f g p ea ed h =
    let at : lookup (tenant, c.transaction_id) m.by_tenant ≡ some t =
      subst (λ (x : Text). lookup (tenant, x) m.by_tenant ≡ some t) (sym p.0) e in
    rw (partial_step clock m tenant c t at f g) (record {
      after = accumulate clock c t;
      found =
          subst
            (λ (x : Text).
              lookup (tenant, x)
                (insert (tenant, c.transaction_id) (accumulate clock c t) m.by_tenant)
              ≡ some (accumulate clock c t))
            p.0 (lookup-insert_self (tenant, c.transaction_id) (accumulate clock c t) m.by_tenant);
      marks = refl;
      fits =
          accumulate_exact clock c t a (pos_part c.amount_minor) due p.1 ea
            (amount_pos c.amount_minor p.2).0 ed h;
    })

-- Credits of positive amounts in the transaction's currency, none counted before, whose amounts
-- with what was there do not exceed what is expected, itself below 2 ^ 63, add up exactly: an
-- open transaction is completed if they reach what is expected, and else keeps its status.
pub pay_all-total :
    (clock : ℕ) (tenant id : Text) (due : ℕ) (c : CreditEvent) (cs : List CreditEvent) (m : Memory)
    (t : Transaction) (a : ℕ)
    → lookup (tenant, id) m.by_tenant ≡ some t
    → is_open t.status ≡ true
    → t.credited_minor ≡ pos a
    → expected_credit t ≡ pos due
    → due < 2 ^ 63
    → a + total (c ∷ cs) ≤ due
    → All (Pays id t) (c ∷ cs)
    → FreshKeys m.applied tenant (c ∷ cs)
    → (t' : Transaction) × (lookup (tenant, id) (pay_all clock m tenant (c ∷ cs)).by_tenant
        ≡ some t')
      × (t'.credited_minor ≡ pos (a + total (c ∷ cs)))
      × (t'.status ≡ (if a + total (c ∷ cs) == due then completed else t.status))
pay_all-total clock tenant id due c [] m t a e f ea ed small h p k =
    let s = pay-Step clock m tenant id c t a due e f k.0 p.0 ea ed (omega arith) in
    (s.after, s.found, ground (arith, s.fits.0), ground (arith, s.fits.1))
pay_all-total clock tenant id due c (d ∷ cs) m t a e f ea ed small h p k =
    let s = pay-Step clock m tenant id c t a due e f k.0 p.0 ea ed (omega arith) in
    let more = (amount_pos d.amount_minor p.1.0.2).1 in
    let same : s.after.status ≡ t.status = ground (arith, s.fits.1) in
    let (t', found, sum, final) =
      pay_all-total clock tenant id due d cs (apply_partial_credit clock m tenant c).0 s.after
        (a + pos_part c.amount_minor) s.found (subst (λ x. is_open x ≡ true) (sym same) f) s.fits.0
        s.fits.2 small (omega arith) (Pays-currency id t s.after (d ∷ cs) s.fits.3 p.1)
        (subst (λ (x : List Key). FreshKeys x tenant (d ∷ cs)) (sym s.marks) k.1) in
    (t', found, ground (arith, sum), ground (arith, final, same))

-- A credit in the transaction's currency that takes a running total below 2 ^ 63 to 2 ^ 63 or more
-- makes the total negative, since it wraps, and leaves the status as it was, however little is
-- expected.
pub accumulate_wraps :
    (clock : ℕ) (c : CreditEvent) (t : Transaction) (a b due : ℕ)
    → differs c.currency t.currency ≡ false
    → t.credited_minor ≡ pos a
    → c.amount_minor ≡ pos b
    → expected_credit t ≡ pos due
    → a < 2 ^ 63
    → b < 2 ^ 63
    → 2 ^ 63 ≤ a + b
    → (ltℤ (accumulate clock c t).credited_minor (pos 0) ≡ true)
      × ((accumulate clock c t).status ≡ t.status)
unfolding accumulate settle expected_credit
accumulate_wraps clock c t a b due same ea eb ed ha hb h =
    let wraps : ltℤ (add64 t.credited_minor c.amount_minor) (pos 0) ≡ true =
      rw (ea, eb) (add64_wraps a b ha hb (omega arith)) in
    ground (arith, wraps)
