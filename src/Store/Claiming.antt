-- ===== src/Store/Claiming.antt =====
-- The sweeps of the store: what is claimed, that a claim follows the state machine, and that
-- nothing is claimed twice.
use recon_sync.Common.{
  ℕ, ◌≤◌, length-take-le, true, false, ◌≡◌, refl, ◌⊎◌, inl, inr, List, [], ◌∷◌, arith, Distinct,
  Bool-cases, text_eq, pair_eq, subst, Text, All, All-sort_slice, map, All-IsEntry, IsEntry, ◌&&◌,
  All-take, ltb, length, Apart, All-map, All-select, Apart-select, Apart-sort_slice, Apart-take,
  Distinct-Apart,
}
use recon_sync.Domain.Status.{pending_debit, suspect, orphaned, is_open}
use recon_sync.Domain.Transaction.{Transaction, is_expired_at}
use recon_sync.Store.State.{Memory}
use recon_sync.Store.Health.{has_ingest_gap}
use recon_sync.Store.Lifecycle.{Sound}
use recon_sync.Store.Expiry.{
  Entry, key_of, is_due, cut, claim_target, claimed, due_entries, claim_expired,
}
use recon_sync.Store.Sweep.{
  claimable, Ready, Kept, claim_loop-Sound, claim_loop-out, claim_loop-Kept,
}

-- An entry of the map that the sweep is to claim.
abbrev pub Due : Memory → ℕ → List Text → Entry → Type 0
Due m now skip e = IsEntry m.by_tenant e × (is_due now skip e ≡ true)

All-cut {κ} : (P : Entry → Type κ) (limit : ℕ) (es : List Entry) → All P es → All P (cut limit es)
All-cut P limit es h = elim (Bool-cases (ltb 0 limit && ltb limit (length es))) [
  | inl e ↦ rw e (All-take P limit es h)
  | inr e ↦ rw e h
]

Apart-cut : (limit : ℕ) (es : List Entry) → Apart es → Apart (cut limit es)
Apart-cut limit es h = elim (Bool-cases (ltb 0 limit && ltb limit (length es))) [
  | inl e ↦ rw e (Apart-take limit es h)
  | inr e ↦ rw e h
]

pub due_entries-Due :
    (m : Memory) (now limit : ℕ) (skip : List Text)
    → Distinct m.by_tenant
    → All (Due m now skip) (due_entries m now limit skip)
unfolding due_entries
due_entries-Due m now limit skip d = All-cut (Due m now skip) limit _ (
    All-sort_slice _ (Due m now skip) _
      (All-select (IsEntry m.by_tenant) (is_due now skip) m.by_tenant (All-IsEntry m.by_tenant d)))

due_entries-Apart :
    (m : Memory) (now limit : ℕ) (skip : List Text)
    → Distinct m.by_tenant
    → Apart (due_entries m now limit skip)
unfolding due_entries
due_entries-Apart m now limit skip d = Apart-cut limit _ (
    Apart-sort_slice _ _
      (Apart-select (is_due now skip) m.by_tenant (Distinct-Apart m.by_tenant d)))

Due-Ready :
    (m : Memory) (now : ℕ) (skip : List Text) (e : Entry) → Due m now skip e → Ready m (key_of e)
unfolding claimable is_expired_at
Due-Ready m now skip e h t g =
    let same : e.1 ≡ t = cc (h.0, g) in
    let opened : is_open e.1.status ≡ true = ground (arith, h.1) in
    subst (λ (x : Transaction). claimable x.status ≡ true) same (ground (arith, opened))

All-Ready :
    (m : Memory) (now : ℕ) (skip : List Text) (es : List Entry)
    → All (Due m now skip) es
    → All (Ready m) (map key_of es)
All-Ready m now skip [] h = tt
All-Ready m now skip (e ∷ es) h = (Due-Ready m now skip e h.0, All-Ready m now skip es h.1)

-- A sweep keeps the map a map, and moves transactions along the state machine.
pub claim_expired-Sound :
    (m : Memory) (now limit : ℕ) (skip : List Text)
    → Distinct m.by_tenant
    → Sound m (claim_expired m now limit skip).0
unfolding claim_expired
claim_expired-Sound m now limit skip d =
    claim_loop-Sound now m (map key_of (due_entries m now limit skip))
      (All-Ready m now skip (due_entries m now limit skip) (due_entries-Due m now limit skip d))

due_entries-limit :
    (m : Memory) (now limit : ℕ) (skip : List Text)
    → (limit ≡ 0) ⊎ (length (due_entries m now limit skip) ≤ limit)
unfolding due_entries
due_entries-limit m now limit skip = cut-limit _
  where
    cut-limit : (es : List Entry) → (limit ≡ 0) ⊎ (length (cut limit es) ≤ limit)
    cut-limit es = ground (arith, length-take-le limit es)

-- How a sweep judges a transaction that is due.
abbrev pub Judged : ℕ → Memory → Entry → Type 0
Judged now m e =
    ((claimed now m e.1).status ≡ suspect)
    ⊎ (((claimed now m e.1).status ≡ orphaned)
        × (e.1.status ≡ pending_debit)
        × (has_ingest_gap m e.1.tenant_id e.1.debit_at e.1.expected_completion_at ≡ false))

verdict_cases :
    (now : ℕ) (m : Memory) (skip : List Text) (e : Entry) → Due m now skip e → Judged now m e
unfolding claimed claim_target is_expired_at is_open
verdict_cases now m skip e h = ground (arith, h.1)

pub claim_expired-Kept :
    (m : Memory) (now limit : ℕ) (skip : List Text)
    → Distinct m.by_tenant
    → All (Kept now m (claim_expired m now limit skip).0) (due_entries m now limit skip)
unfolding claim_expired
claim_expired-Kept m now limit skip d =
    let es = due_entries m now limit skip in
    claim_loop-Kept now m _ es
      (All-map (Due m now skip) (IsEntry m.by_tenant) (λ e h. h.0) es
        (due_entries-Due m now limit skip d))
      (due_entries-Apart m now limit skip d) refl

pub claim_expired_exact :
    (m : Memory) (now limit : ℕ) (skip : List Text)
    → Distinct m.by_tenant
    → let es = due_entries m now limit skip in
      let (m', out) = claim_expired m now limit skip in
      (out ≡ map (λ (e : Entry). claimed now m e.1) es)
      × All (Kept now m m') es
      × All (Due m now skip) es
      × ((limit ≡ 0) ⊎ (length es ≤ limit))
      × All (Judged now m) es
unfolding claim_expired
claim_expired_exact m now limit skip d =
    let es = due_entries m now limit skip in
    let due = due_entries-Due m now limit skip d in
    let entries = All-map (Due m now skip) (IsEntry m.by_tenant) (λ e h. h.0) es due in
    let apart = due_entries-Apart m now limit skip d in
    (
      claim_loop-out now m es entries apart,
      claim_loop-Kept now m _ es entries apart refl,
      due,
      due_entries-limit m now limit skip,
      All-map (Due m now skip) (Judged now m) (verdict_cases now m skip) es due,
    )
