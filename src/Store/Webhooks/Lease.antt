-- ===== src/Store/Webhooks/Lease.antt =====
-- Deliveries that are claimed are leased: until the lease ends, no claim gets them again.
use recon_sync.Common.{
  ℕ, ◌+◌, ◌<◌, ◌≤◌, true, false, ◌≡◌, refl, ap, ◌∙◌, inl, inr, some, List, [], ◌∷◌, lookup, insert,
  arith, Distinct, Distinct-insert, IsEntry, All-IsEntry, All, All-map, All-select, All-sort_slice,
  All-take, Apart, Apart-select, Apart-sort_slice, Apart-take, Distinct-Apart, Bool-cases, ltb,
  length, take, length-take-le, nat_eq, text_eq, ◌=?◌, if◌then◌else◌, lookup-insert,
  lookup-insert_self, map, subst,
}
use recon_sync.Store.State.{Memory}
use recon_sync.Store.Webhooks.{
  Queued, is_due_delivery, due_deliveries, leased, lease_loop, claim_due_deliveries, or_default,
  default_lease, due_delivery,
}

abbrev pub DueEntry : Memory → ℕ → Queued → Type 0
DueEntry m now e = IsEntry m.deliveries e × (is_due_delivery m now e ≡ true)

pub due_deliveries-DueEntry :
    (m : Memory) (now limit : ℕ)
    → Distinct m.deliveries
    → All (DueEntry m now) (due_deliveries m now limit)
unfolding due_deliveries
due_deliveries-DueEntry m now limit d = cut-All _ (
    All-sort_slice _ (DueEntry m now) _ (
      All-select (IsEntry m.deliveries) (is_due_delivery m now) m.deliveries
        (All-IsEntry m.deliveries d)))
  where
    cut-All :
        (es : List Queued)
        → All (DueEntry m now) es
        → All
            (DueEntry m now)
            (if ltb (or_default limit 100) (length es) then take (or_default limit 100) es else es)
    cut-All es h = elim (Bool-cases (ltb (or_default limit 100) (length es))) [
      | inl e ↦ rw e (All-take (DueEntry m now) (or_default limit 100) es h)
      | inr e ↦ rw e h
    ]

due_deliveries-Apart :
    (m : Memory) (now limit : ℕ) → Distinct m.deliveries → Apart (due_deliveries m now limit)
unfolding due_deliveries
due_deliveries-Apart m now limit d =
    cut-Apart _ (Apart-sort_slice _ _ (Apart-select _ m.deliveries (Distinct-Apart m.deliveries d)))
  where
    cut-Apart :
        (es : List Queued)
        → Apart es
        → Apart
            (if ltb (or_default limit 100) (length es) then take (or_default limit 100) es else es)
    cut-Apart es h = elim (Bool-cases (ltb (or_default limit 100) (length es))) [
      | inl e ↦ rw e (Apart-take (or_default limit 100) es h)
      | inr e ↦ rw e h
    ]

due_deliveries-limit :
    (m : Memory) (now limit : ℕ) → length (due_deliveries m now limit) ≤ or_default limit 100
unfolding due_deliveries
due_deliveries-limit m now limit = cut-limit _
  where
    cut-limit :
        (es : List Queued)
        → length
            (if ltb (or_default limit 100) (length es) then take (or_default limit 100) es else es)
          ≤ or_default limit 100
    cut-limit es = ground (arith, length-take-le (or_default limit 100) es)

abbrev after_lease : ℕ → Memory → Queued → Memory
after_lease until m e = record m { deliveries = insert e.0 (leased until e.1) m.deliveries }

lease_loop-Distinct :
    (until : ℕ) (m : Memory) (es : List Queued)
    → Distinct m.deliveries
    → Distinct (lease_loop until m es).0.deliveries
unfolding lease_loop
lease_loop-Distinct until m [] d = d
lease_loop-Distinct until m (e ∷ es) d =
    lease_loop-Distinct until (after_lease until m e) es
      (Distinct-insert e.0 (leased until e.1) m.deliveries d)

lease_loop-frame :
    (until : ℕ) (m : Memory) (k : ℕ) (es : List Queued)
    → All (λ (e : Queued). (e.0 =? k) ≡ false) es
    → lookup k (lease_loop until m es).0.deliveries ≡ lookup k m.deliveries
unfolding lease_loop
lease_loop-frame until m k [] o = refl
lease_loop-frame until m k (e ∷ es) o =
    lease_loop-frame until (after_lease until m e) k es o.1
    ∙ (lookup-insert e.0 k (leased until e.1) m.deliveries ∙ rw o.0)

abbrev pub LeasedTo : ℕ → Memory → Queued → Type 0
LeasedTo until m' e = lookup e.0 m'.deliveries ≡ some (leased until e.1)

lease_loop-leased :
    (until : ℕ) (m : Memory) (es : List Queued)
    → Apart es
    → All (LeasedTo until (lease_loop until m es).0) es
unfolding lease_loop
lease_loop-leased until m [] a = tt
lease_loop-leased until m (e ∷ es) a =
    let n = after_lease until m e in
    (
      lease_loop-frame until n e.0 es a.0 ∙ lookup-insert_self e.0 (leased until e.1) m.deliveries,
      lease_loop-leased until n es a.1,
    )

lease_loop-out :
    (until : ℕ) (m : Memory) (es : List Queued)
    → (lease_loop until m es).1 ≡ map (λ (e : Queued). due_delivery m e.1) es
unfolding lease_loop due_delivery
lease_loop-out until m [] = refl
lease_loop-out until m (e ∷ es) =
    ap (λ out. due_delivery m e.1 ∷ out) (lease_loop-out until (after_lease until m e) es)

-- A delivery that is leased is not due before the lease ends.
not_due :
    (m' : Memory) (now' until : ℕ) (e f : Queued)
    → now' < until
    → LeasedTo until m' e
    → DueEntry m' now' f
    → (e.0 =? f.0) ≡ false
unfolding is_due_delivery
not_due m' now' until e f early l due = elim (Bool-cases (e.0 =? f.0)) [
  | inr q ↦ q
  | inl q ↦
      let same : e.0 ≡ f.0 = ground (arith, q, nat_eq.beq_iff e.0 f.0) in
      let what : f.1 ≡ leased until e.1 =
        cc (subst (λ k. lookup k m'.deliveries ≡ some (leased until e.1)) same l, due.0) in
      absurd (ground (arith, subst (λ x. is_due_delivery m' now' (f.0, x) ≡ true) what due.1))
]

pub claim_due_deliveries-lease :
    (m : Memory) (now lease limit now' limit' : ℕ)
    → Distinct m.deliveries
    → now' < now + or_default lease default_lease
    → let es = due_deliveries m now limit in
      let (m', out) = claim_due_deliveries m now lease limit in
      (out ≡ map (λ (e : Queued). due_delivery m e.1) es)
      × (length es ≤ or_default limit 100)
      × All (DueEntry m now) es
      × All (LeasedTo (now + or_default lease default_lease) m') es
      × All
          (λ (e : Queued).
            All (λ (f : Queued). (e.0 =? f.0) ≡ false) (due_deliveries m' now' limit'))
          es
unfolding claim_due_deliveries
claim_due_deliveries-lease m now lease limit now' limit' d early =
    let until = now + or_default lease default_lease in
    let es = due_deliveries m now limit in
    let m' = (lease_loop until m es).0 in
    let held = lease_loop-leased until m es (due_deliveries-Apart m now limit d) in
    let later = due_deliveries-DueEntry m' now' limit' (lease_loop-Distinct until m es d) in
    (
      lease_loop-out until m es,
      due_deliveries-limit m now limit,
      due_deliveries-DueEntry m now limit d,
      held,
      All-map (LeasedTo until m') _
          (λ e l.
            All-map (DueEntry m' now') _ (λ f due. not_due m' now' until e f early l due)
              (due_deliveries m' now' limit') later)
          es held,
    )
