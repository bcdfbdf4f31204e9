-- ===== src/Common/Keys.antt =====
-- Lists of entries with pairwise different keys, through filters, sorts and cuts.
use Prim.Native.Nat.{ℕ, zero, suc}
use mathlib.Core.Path.{◌≡◌, ◌∙◌}
use mathlib.Core.Bool.{Bool, true, false}
use mathlib.Core.Option.{none}
use mathlib.Core.List.{List, [], ◌∷◌}
use mathlib.Core.Logic.{inl, inr}
use native.Mathlib.Omega.{arith}
use recon_sync.Common.Tests.{Bool-cases}
use recon_sync.Common.Lists.{All, All-take, select, take}
use recon_sync.Common.Equality.{Eq, ◌=?◌, beq_sym}
use recon_sync.Common.Assoc.{Dict, lookup}
use recon_sync.Common.Unique.{Distinct}
use recon_sync.Common.Sort.{insert_sorted, sort_slice, All-insert_sorted, All-sort_slice}

module _ {ℓ κ} {A : Type ℓ} (P : A → Type κ) (p : A → Bool) where
  -- What a filter keeps passed the test.
  pub All-select : (xs : List A) → All P xs → All (λ x. P x × (p x ≡ true)) (select p xs)
  All-select [] h = tt
  All-select (x ∷ xs) h = elim (Bool-cases (p x)) [
    | inl e ↦ rw e ((h.0, e), All-select xs h.1)
    | inr e ↦ rw e (All-select xs h.1)
  ]

module _ {ℓ κ μ} {A : Type ℓ} (P : A → Type κ) (Q : A → Type μ) (f : (x : A) → P x → Q x) where
  pub All-map : (xs : List A) → All P xs → All Q xs
  All-map [] h = tt
  All-map (x ∷ xs) h = (f x h.0, All-map xs h.1)

module _ {ℓ κ} {K : Type ℓ} {V : Type κ} ⦃eq : Eq K⦄ where
  -- The entry has another key.
  abbrev pub Other : K × V → K × V → Type 0
  Other a b = (b.0 =? a.0) ≡ false

  abbrev pub Apart : List (K × V) → Type 0
  Apart [] = Unit
  Apart (a ∷ es) = All (Other a) es × Apart es

  Distinct-Other : (a : K × V) (m : Dict K V) → lookup a.0 m ≡ none → All (Other a) m
  unfolding lookup
  Distinct-Other a [] h = tt
  Distinct-Other a ((k, v) ∷ m) h = elim (Bool-cases (k =? a.0)) [
    | inl p ↦ absurd (ground arith)
    | inr p ↦ (p, Distinct-Other a m (ground arith))
  ]

  pub Distinct-Apart : (m : Dict K V) → Distinct m → Apart m
  Distinct-Apart [] h = tt
  Distinct-Apart (a ∷ m) h = (Distinct-Other a m h.0, Distinct-Apart m h.1)

  pub Apart-select : (p : K × V → Bool) (es : List (K × V)) → Apart es → Apart (select p es)
  Apart-select p [] h = tt
  Apart-select p (a ∷ es) h = elim (Bool-cases (p a)) [
    | inl q ↦ rw q (
      All-map _ (Other a) (λ x r. r.0) (select p es) (All-select (Other a) p es h.0),
      Apart-select p es h.1,
    )
    | inr q ↦ rw q (Apart-select p es h.1)
  ]

  Apart-insert_sorted :
      (less : K × V → K × V → Bool) (a : K × V) (es : List (K × V))
      → All (Other a) es
      → Apart es
      → Apart (insert_sorted less a es)
  unfolding insert_sorted
  Apart-insert_sorted less a [] h k = (tt, tt)
  Apart-insert_sorted less a (b ∷ es) h k = elim (Bool-cases (less b a)) [
    | inl q ↦ rw q (
      All-insert_sorted less (Other b) a es (beq_sym a.0 b.0 ∙ h.0) k.0,
      Apart-insert_sorted less a es h.1 k.1,
    )
    | inr q ↦ rw q (h, k)
  ]

  pub Apart-sort_slice :
      (less : K × V → K × V → Bool) (es : List (K × V)) → Apart es → Apart (sort_slice less es)
  unfolding sort_slice
  Apart-sort_slice less [] h = tt
  Apart-sort_slice less (a ∷ es) h =
      Apart-insert_sorted less a (sort_slice less es) (All-sort_slice less (Other a) es h.0)
        (Apart-sort_slice less es h.1)

  pub Apart-take : (n : ℕ) (es : List (K × V)) → Apart es → Apart (take n es)
  Apart-take zero es h = tt
  Apart-take (suc n) [] h = tt
  Apart-take (suc n) (a ∷ es) h = (All-take (Other a) n es h.0, Apart-take n es h.1)
