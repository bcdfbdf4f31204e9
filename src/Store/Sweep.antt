-- ===== src/Store/Sweep.antt =====
-- memory.go, the loop of `ClaimExpired`: what it stores under each key that it claims, and what it
-- leaves alone.
use recon_sync.Common.{
  ℕ, Bool, true, false, ◌≡◌, refl, sym, ap, ◌∙◌, ◌⊎◌, inl, inr, some, List, [], ◌∷◌, lookup, insert,
  arith, Option-cases, Bool-cases, text_eq, pair_eq, subst, All, map, IsEntry, ◌||◌, lookup-insert,
  ◌=?◌, Apart, Other, beq_sym, lookup-insert_self, All-map,
}
use recon_sync.Domain.Status.{Status, suspect, orphaned, can_transition, is_open, status_beq}
use recon_sync.Domain.Status.Machine.{Reach, here, step}
use recon_sync.Domain.Transaction.{Transaction}
use recon_sync.Store.State.{Key, Memory}
use recon_sync.Store.Health.{has_ingest_gap}
use recon_sync.Store.Evolution.{Moved}
use recon_sync.Store.Lifecycle.{Sound, Sound-same, Sound-trans, Sound-update}
use recon_sync.Store.Expiry.{Entry, key_of, claim_target, claimed, claim_loop}

-- What a transaction may be while its key waits in the list of a sweep.
unfoldable pub claimable : Status → Bool
claimable s = is_open s || (status_beq s orphaned || status_beq s suspect)

claim_cases :
    (m : Memory) (t : Transaction)
    → claimable t.status ≡ true
    → (can_transition t.status (claim_target m t) ≡ true) ⊎ (claim_target m t ≡ t.status)
unfolding claimable claim_target can_transition is_open
claim_cases m t h = ground arith

claimed-Moved :
    (now : ℕ) (m : Memory) (t : Transaction) → claimable t.status ≡ true → Moved t (claimed now m t)
unfolding claimed
claimed-Moved now m t h = elim (claim_cases m t h) [
  | inl e ↦ (refl, step here e)
  | inr e ↦ (refl, subst (λ s. Reach t.status s) (sym e) here)
]

claimed-claimable :
    (now : ℕ) (m : Memory) (t : Transaction) → claimable (claimed now m t).status ≡ true
unfolding claimed claimable claim_target is_open
claimed-claimable now m t = ground arith

pub claimed_closed :
    (now : ℕ) (m : Memory) (t : Transaction) → is_open (claimed now m t).status ≡ false
unfolding claimed claim_target is_open
claimed_closed now m t = ground arith

-- A key that waits in the list of a sweep.
abbrev pub Ready : Memory → Key → Type 0
Ready m k = (t : Transaction) → lookup k m.by_tenant ≡ some t → claimable t.status ≡ true

abbrev after_claim : ℕ → Memory → Key → Transaction → Memory
after_claim now m k t = record m { by_tenant = insert k (claimed now m t) m.by_tenant }

Ready-after :
    (now : ℕ) (m : Memory) (k : Key) (t : Transaction) (j : Key)
    → Ready m j
    → Ready (after_claim now m k t) j
Ready-after now m k t j r u h = elim (Bool-cases (k =? j)) [
  | inl e ↦
      let same : claimed now m t ≡ u =
        ground (arith, lookup-insert k j (claimed now m t) m.by_tenant) in
      subst (λ x. claimable x.status ≡ true) same (claimed-claimable now m t)
  | inr e ↦ r u (ground (arith, lookup-insert k j (claimed now m t) m.by_tenant))
]

All-Ready-after :
    (now : ℕ) (m : Memory) (k : Key) (t : Transaction) (js : List Key)
    → All (Ready m) js
    → All (Ready (after_claim now m k t)) js
All-Ready-after now m k t [] h = tt
All-Ready-after now m k t (j ∷ js) h =
    (Ready-after now m k t j h.0, All-Ready-after now m k t js h.1)

pub claim_loop-Sound :
    (now : ℕ) (m : Memory) (ks : List Key) → All (Ready m) ks → Sound m (claim_loop now m ks).0
unfolding claim_loop
claim_loop-Sound now m [] h = Sound-same refl
claim_loop-Sound now m (k ∷ ks) h = elim (Option-cases (lookup k m.by_tenant)) [
  | inl e ↦ rw (e, claim_loop) (claim_loop-Sound now m ks h.1)
  | inr (t, e) ↦
      rw (e, claim_loop)
        (Sound-trans
          (Sound-update m (after_claim now m k t) k t (claimed now m t) e
            (claimed-Moved now m t (h.0 t e)) refl)
          (claim_loop-Sound now (after_claim now m k t) ks (All-Ready-after now m k t ks h.1)))
]

-- The entries that wait are those of the map, under different keys.
abbrev pub Waiting : Memory → List Entry → Type 0
Waiting m es = All (IsEntry m.by_tenant) es × Apart es

claimed_later :
    (now : ℕ) (m : Memory) (k : Key) (t u : Transaction)
    → claimed now (after_claim now m k t) u ≡ claimed now m u
unfolding claimed claim_target has_ingest_gap
claimed_later now m k t u = refl

map-claimed :
    (now : ℕ) (m : Memory) (k : Key) (t : Transaction) (es : List Entry)
    → map (λ (e : Entry). claimed now (after_claim now m k t) e.1) es
      ≡ map (λ (e : Entry). claimed now m e.1) es
map-claimed now m k t [] = refl
map-claimed now m k t (e ∷ es) = cc (claimed_later now m k t e.1, map-claimed now m k t es)

still_entries :
    (now : ℕ) (m : Memory) (e : Entry) (es : List Entry)
    → All (Other e) es
    → All (IsEntry m.by_tenant) es
    → All (IsEntry (after_claim now m e.0 e.1).by_tenant) es
still_entries now m e [] o h = tt
still_entries now m e (f ∷ es) o h = (
  ground (arith, lookup-insert e.0 f.0 (claimed now m e.1) m.by_tenant, beq_sym e.0 f.0, o.0, h.0),
  still_entries now m e es o.1 h.1,
)

-- Entries under other keys are left alone.
claim_loop-frame :
    (now : ℕ) (m : Memory) (k : Key) (es : List Entry)
    → All (IsEntry m.by_tenant) es
    → Apart es
    → All (λ (e : Entry). (e.0 =? k) ≡ false) es
    → lookup k (claim_loop now m (map key_of es)).0.by_tenant ≡ lookup k m.by_tenant
unfolding claim_loop
claim_loop-frame now m k [] h a o = refl
claim_loop-frame now m k (e ∷ es) h a o =
    let m' = after_claim now m e.0 e.1 in
    rw (h.0, claim_loop)
      (claim_loop-frame now m' k es (still_entries now m e es a.0 h.1) a.1 o.1
        ∙ (lookup-insert e.0 k (claimed now m e.1) m.by_tenant ∙ rw o.0))

pub claim_loop-out :
    (now : ℕ) (m : Memory) (es : List Entry)
    → All (IsEntry m.by_tenant) es
    → Apart es
    → (claim_loop now m (map key_of es)).1 ≡ map (λ (e : Entry). claimed now m e.1) es
unfolding claim_loop
claim_loop-out now m [] h a = refl
claim_loop-out now m (e ∷ es) h a =
    let m' = after_claim now m e.0 e.1 in
    let rest = claim_loop-out now m' es (still_entries now m e es a.0 h.1) a.1 in
    rw (h.0, claim_loop) (cc (rest, map-claimed now m e.0 e.1 es))

-- What a sweep stores under a key that it claimed.
abbrev pub Kept : ℕ → Memory → Memory → Entry → Type 0
Kept now m m' e = lookup e.0 m'.by_tenant ≡ some (claimed now m e.1)

pub claim_loop-Kept :
    (now : ℕ) (m m' : Memory) (es : List Entry)
    → All (IsEntry m.by_tenant) es
    → Apart es
    → (claim_loop now m (map key_of es)).0 ≡ m'
    → All (Kept now m m') es
unfolding claim_loop
claim_loop-Kept now m m' [] h a q = tt
claim_loop-Kept now m m' (e ∷ es) h a q =
    let n = after_claim now m e.0 e.1 in
    let others = still_entries now m e es a.0 h.1 in
    let end : (claim_loop now n (map key_of es)).0 ≡ m' = rw (h.0, claim_loop) at q in
    let first : Kept now m m' e =
      ap (λ (x : Memory). lookup e.0 x.by_tenant) (sym end)
      ∙ (claim_loop-frame now n e.0 es others a.1 a.0
          ∙ lookup-insert_self e.0 (claimed now m e.1) m.by_tenant) in
    (
      first,
      All-map (Kept now n m') (Kept now m m') (λ x s. s ∙ ap some (claimed_later now m e.0 e.1 x.1))
          es (claim_loop-Kept now n m' es others a.1 end),
    )
