-- ===== src/Store/Evolution.antt =====
-- How the transactions of a store may change: along the state machine, and in nothing that was
-- fixed at the debit.
use recon_sync.Common.{
  ◌≡◌, refl, sym, ◌∙◌, ◌⊎◌, inl, inr, none, some, Dict, lookup, insert, pos, lookup-insert,
  Option-cases, Bool-cases, text_eq, pair_eq, ◌=?◌, subst, pair_beq_iff,
}
use recon_sync.Domain.Status.{Status, pending_debit}
use recon_sync.Domain.Status.Machine.{Reach, here, step}
use recon_sync.Domain.Transaction.{Transaction}
use recon_sync.Store.State.{Key}

-- A transaction without the fields that the store writes after the debit.
abbrev pub fixed : Transaction → Transaction
fixed t = record t {
  status = pending_debit;
  credit_at = none;
  detected_at = none;
  reversal_triggered_at = none;
  reversal_completed_at = none;
  credited_minor = pos 0;
  sla_warned_at = none;
  updated_at = 0;
}

abbrev pub Moved : Transaction → Transaction → Type 0
Moved t t' = (fixed t' ≡ fixed t) × Reach t.status t'.status

pub Reach-trans : {s t u : Status} → Reach s t → Reach t u → Reach s u
Reach-trans r here = r
Reach-trans r (step q h) = step (Reach-trans r q) h

pub record Evolves (d d' : Dict Key Transaction) : Type 0 where
  pub keeps :
      (k : Key) (t : Transaction)
      → lookup k d ≡ some t
      → (t' : Transaction) × (lookup k d' ≡ some t') × Moved t t'
  pub starts :
      (k : Key) (t' : Transaction)
      → lookup k d ≡ none
      → lookup k d' ≡ some t'
      → Reach pending_debit t'.status

pub Evolves-refl : (d : Dict Key Transaction) → Evolves d d
Evolves-refl d = record { keeps = λ k t h. (t, h, (refl, here)); starts = λ k t' h g. absurd (cc) }

pub Evolves-trans : {c d e : Dict Key Transaction} → Evolves c d → Evolves d e → Evolves c e
Evolves-trans {c} {d} {e} f g = record {
  keeps = λ k t h. later k t (f.keeps k t h);
  starts = λ k t' h i. begun k t' h i (Option-cases (lookup k d));
}
  where
    later :
        (k : Key) (t : Transaction)
        → (t' : Transaction) × (lookup k d ≡ some t') × Moved t t'
        → (t' : Transaction) × (lookup k e ≡ some t') × Moved t t'
    later k t (u, h, (p, r)) = let (v, i, m) = g.keeps k u h in (v, i, (m.0 ∙ p, Reach-trans r m.1))

    begun :
        (k : Key) (t' : Transaction)
        → lookup k c ≡ none
        → lookup k e ≡ some t'
        → (lookup k d ≡ none) ⊎ ((t : Transaction) × (lookup k d ≡ some t))
        → Reach pending_debit t'.status
    begun k t' h i (inl n) = g.starts k t' n i
    begun k t' h i (inr (u, s)) =
        let (v, j, m) = g.keeps k u s in
        let same : v ≡ t' = cc in
        subst (λ x. Reach pending_debit x.status) same (Reach-trans (f.starts k u h s) m.1)

insert_cases :
    (k j : Key) (v : Transaction) (d : Dict Key Transaction)
    → ((k ≡ j) × (lookup j (insert k v d) ≡ some v)) ⊎ (lookup j (insert k v d) ≡ lookup j d)
insert_cases k j v d = elim (Bool-cases (k =? j)) [
  | inl p ↦ inl ((pair_beq_iff k j).0 p, lookup-insert k j v d ∙ (rw p))
  | inr p ↦ inr (lookup-insert k j v d ∙ (rw p))
]

-- Writing a transaction that moved is an evolution.
pub Evolves-update :
    (k : Key) (t t' : Transaction) (d : Dict Key Transaction)
    → lookup k d ≡ some t
    → Moved t t'
    → Evolves d (insert k t' d)
Evolves-update k t t' d h m = record {
  keeps = λ j u g. kept j u g (insert_cases k j t' d);
  starts = λ j u g i. begun j u g i (insert_cases k j t' d);
}
  where
    kept :
        (j : Key) (u : Transaction)
        → lookup j d ≡ some u
        → ((k ≡ j) × (lookup j (insert k t' d) ≡ some t')) ⊎ (lookup j (insert k t' d) ≡ lookup j d)
        → (u' : Transaction) × (lookup j (insert k t' d) ≡ some u') × Moved u u'
    kept j u g (inl (p, e)) =
        let same : t ≡ u = cc (subst (λ x. lookup x d ≡ some t) p h) in
        (t', e, subst (λ x. Moved x t') same m)
    kept j u g (inr e) = (u, e ∙ g, (refl, here))

    begun :
        (j : Key) (u : Transaction)
        → lookup j d ≡ none
        → lookup j (insert k t' d) ≡ some u
        → ((k ≡ j) × (lookup j (insert k t' d) ≡ some t')) ⊎ (lookup j (insert k t' d) ≡ lookup j d)
        → Reach pending_debit u.status
    begun j u g i (inl (p, e)) = absurd (cc (subst (λ x. lookup x d ≡ some t) p h))
    begun j u g i (inr e) = absurd (cc)

-- So is adding a transaction that starts its life.
pub Evolves-add :
    (k : Key) (t : Transaction) (d : Dict Key Transaction)
    → lookup k d ≡ none
    → t.status ≡ pending_debit
    → Evolves d (insert k t d)
Evolves-add k t d h s = record {
  keeps = λ j u g. kept j u g (insert_cases k j t d);
  starts = λ j u g i. begun j u g i (insert_cases k j t d);
}
  where
    kept :
        (j : Key) (u : Transaction)
        → lookup j d ≡ some u
        → ((k ≡ j) × (lookup j (insert k t d) ≡ some t)) ⊎ (lookup j (insert k t d) ≡ lookup j d)
        → (u' : Transaction) × (lookup j (insert k t d) ≡ some u') × Moved u u'
    kept j u g (inl (p, e)) = absurd (cc (subst (λ x. lookup x d ≡ none) p h))
    kept j u g (inr e) = (u, e ∙ g, (refl, here))

    begun :
        (j : Key) (u : Transaction)
        → lookup j d ≡ none
        → lookup j (insert k t d) ≡ some u
        → ((k ≡ j) × (lookup j (insert k t d) ≡ some t)) ⊎ (lookup j (insert k t d) ≡ lookup j d)
        → Reach pending_debit u.status
    begun j u g i (inl (p, e)) =
        let same : t ≡ u = cc in
        subst (λ x. Reach pending_debit x.status) same
          (subst (λ x. Reach pending_debit x) (sym s) here)
    begun j u g i (inr e) = absurd (cc)
