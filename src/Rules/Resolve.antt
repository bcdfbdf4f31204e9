-- ===== src/Rules/Resolve.antt =====
-- Which rule wins, and that the order of the rules does not matter.
use mathlib.Core.List.{Memᴰ}
use recon_sync.Common.{
  true, false, ◌≡◌, refl, ◌⊎◌, inl, inr, Option, none, some, List, [], ◌∷◌, arith, Bool-cases,
  Option-cases, if◌then◌else◌, seconds64, sym, subst, ap, ◌∙◌,
}
use recon_sync.Domain.Transaction.{Transaction}
use recon_sync.Rules.{
  Rule, Resolution, matches, better, wins, find_best, resolve, default_window, auto_reverse,
}
use recon_sync.Rules.Order.{better_irrefl, better_trans, not_better_trans, not_better_id}

module _ (t : Transaction) where
  -- The loop has seen the rule: it is the best so far, or it is still to come and matches.
  abbrev Candidate : Option Rule → List Rule → Rule → Type 0
  Candidate best rules r = (best ≡ some r) ⊎ (Memᴰ r rules × (matches r t ≡ true))

  -- Nothing that the loop sees is better.
  abbrev Unbeaten : Option Rule → List Rule → Rule → Type 0
  Unbeaten best rules b = (r : Rule) → Candidate best rules r → better r b ≡ false

  -- One turn of the loop.
  next_best : Option Rule → Rule → Option Rule
  next_best best r = if matches r t then (if wins r best then some r else best) else best

  next_keeps :
      (best : Option Rule) (x : Rule) (r : Rule)
      → best ≡ some r
      → (next_best best x ≡ some r) ⊎ ((next_best best x ≡ some x) × (better x r ≡ true))
  unfolding next_best
  next_keeps best x r h = ground arith

  next_sees :
      (best : Option Rule) (x : Rule)
      → matches x t ≡ true
      → (next_best best x ≡ some x)
        ⊎ ((c : Rule) × (best ≡ some c) × (next_best best x ≡ some c) × (better x c ≡ false))
  unfolding next_best
  next_sees none x h = ground arith
  next_sees (some c) x h = elim (Bool-cases (better x c)) [
    | inl e ↦ inl (rw (h, e))
    | inr e ↦ inr (c, refl, rw (h, e), e)
  ]

  next_from :
      (best : Option Rule) (x : Rule) (b : Rule)
      → next_best best x ≡ some b
      → (best ≡ some b) ⊎ ((b ≡ x) × (matches x t ≡ true))
  unfolding next_best
  next_from best x b h = ground arith

  Candidate-step :
      (best : Option Rule) (x : Rule) (rules : List Rule) (b : Rule)
      → Candidate (next_best best x) rules b
      → Candidate best (x ∷ rules) b
  Candidate-step best x rules b (inl e) = elim (next_from best x b e) [
    | inl old ↦ inl old
    | inr (p, m) ↦ inr (Memᴰ.head p, subst (λ r. matches r t ≡ true) (sym p) m)
  ]
  Candidate-step best x rules b (inr (i, m)) = inr (Memᴰ.tail i, m)

  beaten_by : (x r b : Rule) → better x r ≡ true → better x b ≡ false → better r b ≡ false
  beaten_by x r b h k = elim (Bool-cases (better r b)) [
    | inl e ↦ absurd (cc (better_trans x r b h e))
    | inr e ↦ e
  ]

  Unbeaten-step :
      (best : Option Rule) (x : Rule) (rules : List Rule) (b : Rule)
      → Unbeaten (next_best best x) rules b
      → Unbeaten best (x ∷ rules) b
  Unbeaten-step best x rules b h r (inl e) = elim (next_keeps best x r e) [
    | inl kept ↦ h r (inl kept)
    | inr (new, beats) ↦ beaten_by x r b beats (h x (inl new))
  ]
  Unbeaten-step best x rules b h r (inr (Memᴰ.head p, m)) =
      elim (next_sees best x (subst (λ r. matches r t ≡ true) p m)) [
        | inl new ↦ subst (λ r. better r b ≡ false) (sym p) (h x (inl new))
        | inr (c, old, kept, worse) ↦
            subst (λ r. better r b ≡ false) (sym p) (not_better_trans x c b worse (h c (inl kept)))
      ]
  Unbeaten-step best x rules b h r (inr (Memᴰ.tail i, m)) = h r (inr (i, m))

  Unbeaten-end : (best : Option Rule) (b : Rule) → best ≡ some b → Unbeaten best [] b
  Unbeaten-end best b h r (inl e) =
      let p : b ≡ r = cc in subst (λ x. better r x ≡ false) (sym p) (better_irrefl r)
  Unbeaten-end best b h r (inr (m, k)) = elim m [ ]

  find_best-some :
      (best : Option Rule) (rules : List Rule) (b : Rule)
      → find_best t best rules ≡ some b
      → Candidate best rules b × Unbeaten best rules b
  unfolding find_best next_best
  find_best-some best [] b h = (inl h, Unbeaten-end best b h)
  find_best-some best (x ∷ rules) b h =
      let (c, u) = find_best-some (next_best best x) rules b h in
      (Candidate-step best x rules b c, Unbeaten-step best x rules b u)

  next_none :
      (best : Option Rule) (x : Rule)
      → next_best best x ≡ none
      → (best ≡ none) × (matches x t ≡ false)
  unfolding next_best
  next_none none x h = ground arith
  next_none (some c) x h = ground arith

  find_best-none :
      (best : Option Rule) (rules : List Rule)
      → find_best t best rules ≡ none
      → (best ≡ none) × ((r : Rule) → Memᴰ r rules → matches r t ≡ false)
  unfolding find_best next_best
  find_best-none best [] h = (h, λ r m. elim m [ ])
  find_best-none best (x ∷ rules) h =
      let (n, later) = find_best-none (next_best best x) rules h in
      let (first, miss) = next_none best x n in (first, λ r m. mem_case r m miss later)
    where
      mem_case :
          (r : Rule)
          → Memᴰ r (x ∷ rules)
          → matches x t ≡ false
          → ((s : Rule) → Memᴰ s rules → matches s t ≡ false)
          → matches r t ≡ false
      mem_case r (Memᴰ.head p) miss later = subst (λ s. matches s t ≡ false) (sym p) miss
      mem_case r (Memᴰ.tail i) miss later = later r i

abbrev pub of_rule : Rule → Resolution
of_rule b = record { window = seconds64 b.window_seconds; action = b.action; rule_id = b.id }

abbrev pub default_resolution : Resolution
default_resolution = record { window = default_window; action = auto_reverse; rule_id = 0 }

-- The rule is one of the list, it matches, and no matching rule of the list is better.
pub record Winner (rules : List Rule) (t : Transaction) (b : Rule) : Type 0 where
  pub member : Memᴰ b rules
  pub applies : matches b t ≡ true
  pub unbeaten : (r : Rule) → Memᴰ r rules → matches r t ≡ true → better r b ≡ false

-- Either no rule of the set matches, and the default applies, or the resolution is that of a
-- matching rule that no other matching rule is better than.
pub resolve-Winner :
    (rules : List Rule) (t : Transaction)
    → (((r : Rule) → Memᴰ r rules → matches r t ≡ false) × (resolve rules t ≡ default_resolution))
      ⊎ ((b : Rule) × Winner rules t b × (resolve rules t ≡ of_rule b))
unfolding resolve
resolve-Winner rules t = elim (Option-cases (find_best t none rules)) [
  | inl e ↦ inl ((find_best-none t none rules e).1, rw (e, resolve))
  | inr (b, e) ↦ inr (b, winner b (find_best-some t none rules b e), rw (e, resolve))
]
  where
    winner : (b : Rule) → Candidate t none rules b × Unbeaten t none rules b → Winner rules t b
    winner b (inl e, u) = absurd (cc)
    winner b (inr (i, m), u) = record {
      member = i;
      applies = m;
      unbeaten = λ r j k. u r (inr (j, k));
    }

abbrev pub DistinctIds : List Rule → Type 0
DistinctIds rules = (r s : Rule) → Memᴰ r rules → Memᴰ s rules → r.id ≡ s.id → r ≡ s

-- Of two lists that hold the same rules, in any order and however often, with different rules
-- under different identifiers, every transaction gets the same resolution.
pub resolve_order :
    (xs ys : List Rule) (t : Transaction)
    → DistinctIds xs
    → ((r : Rule) → Memᴰ r xs → Memᴰ r ys)
    → ((r : Rule) → Memᴰ r ys → Memᴰ r xs)
    → resolve xs t ≡ resolve ys t
resolve_order xs ys t d to from = go (resolve-Winner xs t) (resolve-Winner ys t)
  where
    go :
        (((r : Rule) → Memᴰ r xs → matches r t ≡ false) × (resolve xs t ≡ default_resolution))
          ⊎ ((b : Rule) × Winner xs t b × (resolve xs t ≡ of_rule b))
        → (((r : Rule) → Memᴰ r ys → matches r t ≡ false) × (resolve ys t ≡ default_resolution))
          ⊎ ((b : Rule) × Winner ys t b × (resolve ys t ≡ of_rule b))
        → resolve xs t ≡ resolve ys t
    go (inl (n, e)) (inl (m, f)) = e ∙ sym f
    go (inl (n, e)) (inr (b, w, f)) = absurd (cc (n b (from b w.member), w.applies))
    go (inr (b, w, e)) (inl (m, f)) = absurd (cc (m b (to b w.member), w.applies))
    go (inr (b, w, e)) (inr (c, v, f)) =
        let ids : b.id ≡ c.id =
          not_better_id b c (v.unbeaten b (to b w.member) w.applies)
            (w.unbeaten c (from c v.member) v.applies) in
        let same : b ≡ c = d b c w.member (from c v.member) ids in e ∙ (ap of_rule same ∙ sym f)
