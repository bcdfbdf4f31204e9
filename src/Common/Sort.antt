-- ===== src/Common/Sort.antt =====
-- `sort.Slice` and `sort.SliceStable`: insertion before the first element that is not smaller.
use mathlib.Core.Bool.{Bool}
use mathlib.Core.List.{List, [], ◌∷◌}
use mathlib.Core.Logic.{inl, inr}
use recon_sync.Common.Tests.{if◌then◌else◌, Bool-cases}
use recon_sync.Common.Lists.{All}

module _ {ℓ} {A : Type ℓ} (less : A → A → Bool) where
  unfoldable pub insert_sorted : A → List A → List A
  insert_sorted x [] = x ∷ []
  insert_sorted x (y ∷ ys) = if less y x then y ∷ insert_sorted x ys else x ∷ y ∷ ys

  unfoldable pub sort_slice : List A → List A
  unfolding insert_sorted
  sort_slice [] = []
  sort_slice (x ∷ xs) = insert_sorted x (sort_slice xs)

  module _ {κ} (P : A → Type κ) where
    pub All-insert_sorted : (x : A) (ys : List A) → P x → All P ys → All P (insert_sorted x ys)
    unfolding insert_sorted
    All-insert_sorted x [] h k = (h, tt)
    All-insert_sorted x (y ∷ ys) h k = elim (Bool-cases (less y x)) [
      | inl e ↦ rw e (k.0, All-insert_sorted x ys h k.1)
      | inr e ↦ rw e (h, k)
    ]

    pub All-sort_slice : (xs : List A) → All P xs → All P (sort_slice xs)
    unfolding sort_slice
    All-sort_slice [] h = tt
    All-sort_slice (x ∷ xs) h = All-insert_sorted x (sort_slice xs) h.0 (All-sort_slice xs h.1)
