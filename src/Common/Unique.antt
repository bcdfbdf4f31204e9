-- ===== src/Common/Unique.antt =====
-- Maps hold each key once, and what that says of their entries.
use mathlib.Core.Path.{◌≡◌, refl, subst}
use mathlib.Core.Bool.{false}
use mathlib.Core.Option.{none, some}
use mathlib.Core.List.{List, [], ◌∷◌}
use mathlib.Core.Logic.{inl, inr}
use native.Mathlib.Omega.{arith}
use recon_sync.Common.Tests.{Bool-cases}
use recon_sync.Common.Lists.{All}
use recon_sync.Common.Equality.{Eq, ◌=?◌, beq_refl}
use recon_sync.Common.Assoc.{Dict, lookup, insert, lookup-insert}

module _ {ℓ κ} {K : Type ℓ} {V : Type κ} ⦃e : Eq K⦄ where
  -- No key stands in two entries.
  abbrev pub Distinct : Dict K V → Type κ
  Distinct [] = Unit
  Distinct ((k, v) ∷ m) = (lookup k m ≡ none) × Distinct m

  pub Distinct-insert : (k : K) (v : V) (m : Dict K V) → Distinct m → Distinct (insert k v m)
  unfolding insert lookup
  Distinct-insert k v [] h = (refl, tt)
  Distinct-insert k v ((j, w) ∷ m) h = elim (Bool-cases (j =? k)) [
    | inl p ↦
        let q : j ≡ k = (e.beq_iff j k).0 p in rw p (subst (λ i. lookup i m ≡ none) q h.0, h.1)
    | inr p ↦ rw p (keep p, Distinct-insert k v m h.1)
  ]
    where
      keep : (j =? k) ≡ false → lookup j (insert k v m) ≡ none
      keep p = ground (arith, lookup-insert k j v m, e.beq_iff k j, e.beq_iff j k, h.0)

  -- An entry is what a lookup of its key finds.
  abbrev pub IsEntry : Dict K V → K × V → Type κ
  IsEntry m p = lookup p.0 m ≡ some p.1

  All-later :
      (k : K) (v : V) (m : Dict K V) (ps : List (K × V))
      → lookup k m ≡ none
      → All (IsEntry m) ps
      → All (IsEntry ((k, v) ∷ m)) ps
  unfolding lookup
  All-later k v m [] h a = tt
  All-later k v m ((j, w) ∷ ps) h a = (step, All-later k v m ps h a.1)
    where
      step : lookup j ((k, v) ∷ m) ≡ some w
      step = elim (Bool-cases (k =? j)) [
        | inl p ↦
            let q : k ≡ j = (e.beq_iff k j).0 p in
            absurd (cc (subst (λ i. lookup i m ≡ none) q h, a.0))
        | inr p ↦ rw p a.0
      ]

  pub All-IsEntry : (m : Dict K V) → Distinct m → All (IsEntry m) m
  unfolding lookup
  All-IsEntry [] h = tt
  All-IsEntry ((k, v) ∷ m) h = (rw (beq_refl k), All-later k v m m h.0 (All-IsEntry m h.1))
