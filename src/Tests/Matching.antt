-- ===== src/Tests/Matching.antt =====
-- The properties of the rules and of the state machine.
use mathlib.Core.List.{Memᴰ}
use recon_sync.Common.{
  ℕ, ◌≡◌, ◌⊎◌, ◌≤◌, sym, inl, inr, true, false, none, some, List, [], ◌∷◌, Text, pos, ℤ, lookup,
  text_eq, arith, ap, ◌∙◌, ◌≢◌,
}
use recon_sync.Domain.Status.{pending_debit, status_eq}
use recon_sync.Rules.{Rule, matches, resolve, auto_reverse, alert_only}
use recon_sync.Rules.Resolve.{
  Winner, of_rule, default_resolution, DistinctIds, resolve-Winner, resolve_order,
}
use recon_sync.Rules.Provider.{Provider, Entry}
use recon_sync.Tests.Data.{bank, transfer}

abbrev any_rule : ℕ → ℤ → Text → Rule
any_rule id priority action = record {
  id = id;
  transaction_type = [];
  provider = [];
  currency = [];
  min_amount_minor = none;
  max_amount_minor = none;
  window_seconds = pos 60;
  action = action;
  priority = priority;
  enabled = true;
}

abbrev low : Rule
low = any_rule 1 (pos 0) auto_reverse

abbrev high : Rule
high = any_rule 2 (pos 5) alert_only

abbrev both : List Rule
both = low ∷ high ∷ []

abbrev swapped : List Rule
swapped = high ∷ low ∷ []

resolve-Winner_example :
    (((r : Rule) → Memᴰ r both → matches r (transfer pending_debit) ≡ false)
      × (resolve both (transfer pending_debit) ≡ default_resolution))
    ⊎ ((b : Rule) × Winner both (transfer pending_debit) b
        × (resolve both (transfer pending_debit) ≡ of_rule b))
resolve-Winner_example = resolve-Winner both (transfer pending_debit)

swap : (a b r : Rule) → Memᴰ r (a ∷ b ∷ []) → Memᴰ r (b ∷ a ∷ [])
swap a b r (Memᴰ.head p) = Memᴰ.tail (Memᴰ.head p)
swap a b r (Memᴰ.tail (Memᴰ.head p)) = Memᴰ.head p
swap a b r (Memᴰ.tail (Memᴰ.tail i)) = elim i [ ]

in_both : (r : Rule) → Memᴰ r both → (r ≡ low) ⊎ (r ≡ high)
in_both r (Memᴰ.head p) = inl p
in_both r (Memᴰ.tail (Memᴰ.head p)) = inr p
in_both r (Memᴰ.tail (Memᴰ.tail i)) = elim i [ ]

both-DistinctIds : DistinctIds both
both-DistinctIds r s i j e = elim (in_both r i) [
  | inl p ↦ elim (in_both s j) [
    | inl q ↦ p ∙ sym q
    | inr q ↦ absurd (one_two (sym (ap (λ (x : Rule). x.id) p) ∙ (e ∙ ap (λ (x : Rule). x.id) q)))
  ]
  | inr p ↦ elim (in_both s j) [
    | inl q ↦
        absurd (one_two (sym (ap (λ (x : Rule). x.id) q) ∙ (sym e ∙ ap (λ (x : Rule). x.id) p)))
    | inr q ↦ p ∙ sym q
  ]
]
  where
    one_two : ◌≢◌ {A = ℕ} 1 2
    one_two h = absurd (omega arith)

resolve_order_example :
    resolve both (transfer pending_debit) ≡ resolve swapped (transfer pending_debit)
resolve_order_example =
    resolve_order both swapped (transfer pending_debit) both-DistinctIds (swap low high)
      (swap high low)

abbrev old : Provider
old = record { ttl = 100; cached = (bank, record { set = both; expires_at = 10 }) ∷ [] }

old_expired : (e : Entry) → lookup bank old.cached ≡ some e → e.expires_at ≤ 20
unfolding lookup
old_expired e h = ground (arith, h)
