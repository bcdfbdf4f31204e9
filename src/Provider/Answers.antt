-- ===== src/Provider/Answers.antt =====
-- What the registry turns the answers of adapters into.
use recon_sync.Common.{
  ℕ, true, ◌≡◌, refl, sym, ◌∙◌, ap, subst, inl, inr, ◌⊎◌, ◌↔◌, some, lookup, text_eq, arith,
  Option-cases,
}
use recon_sync.Provider.{
  Outcome, settled, failed, not_found, unknown, unrecognised, conclusive, Ref, RailStatus, Answer,
  answered, failure, Adapter, Registry, recognised, read_answer, query,
}

-- The adapter of the rail says so itself.
abbrev pub Says : Registry → Ref → Outcome → Type 0
Says r ref o =
    (p : Adapter) × (s : RailStatus) × (lookup ref.provider r ≡ some p)
    × (p.ask ref ≡ answered s)
    × (s.outcome ≡ o)

recognised-outcome :
    (clock : ℕ) (ref : Ref) (s : RailStatus) (o : Outcome)
    → s.outcome ≡ o
    → conclusive (recognised clock ref s o).outcome ≡ true
    → s.outcome ≡ (recognised clock ref s o).outcome
recognised-outcome clock ref s settled e h = refl
recognised-outcome clock ref s failed e h = refl
recognised-outcome clock ref s not_found e h = refl
recognised-outcome clock ref s unknown e h = refl
recognised-outcome clock ref s (unrecognised t) e h = absurd (cc)

read_answer-outcome :
    (clock : ℕ) (ref : Ref) (a : Answer)
    → conclusive (read_answer clock ref a).outcome ≡ true
    → (s : RailStatus) × (a ≡ answered s) × (s.outcome ≡ (read_answer clock ref a).outcome)
read_answer-outcome clock ref (answered s) h =
    (s, refl, recognised-outcome clock ref s s.outcome refl h)
read_answer-outcome clock ref (failure e) h = absurd (cc)

-- A conclusive outcome is the adapter's own.
query-Says :
    (clock : ℕ) (r : Registry) (ref : Ref)
    → conclusive (query clock r ref).outcome ≡ true
    → Says r ref (query clock r ref).outcome
unfolding query
query-Says clock r ref h = elim (Option-cases (lookup ref.provider r)) [
  | inl e ↦ absurd (ground arith)
  | inr (p, e) ↦
      let q : query clock r ref ≡ read_answer clock ref (p.ask ref) = rw (e, query) in
      let outcome_of = λ (x : RailStatus). x.outcome in
      let (s, f, g) =
        read_answer-outcome clock ref (p.ask ref)
          (subst (λ (x : RailStatus). conclusive x.outcome ≡ true) q h) in
      (p, s, e, f, g ∙ ap outcome_of (sym q))
]

recognised-cases :
    (clock : ℕ) (ref : Ref) (s : RailStatus) (o : Outcome)
    → s.outcome ≡ o
    → (conclusive (recognised clock ref s o).outcome ≡ true)
      ⊎ ((recognised clock ref s o).outcome ≡ Outcome.unknown)
recognised-cases clock ref s settled e = inl (rw e)
recognised-cases clock ref s failed e = inl (rw e)
recognised-cases clock ref s not_found e = inl (rw e)
recognised-cases clock ref s unknown e = inr e
recognised-cases clock ref s (unrecognised t) e = inr refl

read_answer-cases :
    (clock : ℕ) (ref : Ref) (a : Answer)
    → (conclusive (read_answer clock ref a).outcome ≡ true)
      ⊎ ((read_answer clock ref a).outcome ≡ Outcome.unknown)
read_answer-cases clock ref (answered s) = recognised-cases clock ref s s.outcome refl
read_answer-cases clock ref (failure e) = inr refl

-- What the registry gives is conclusive or unknown.
pub query-cases :
    (clock : ℕ) (r : Registry) (ref : Ref)
    → (conclusive (query clock r ref).outcome ≡ true)
      ⊎ ((query clock r ref).outcome ≡ Outcome.unknown)
unfolding query
query-cases clock r ref = elim (Option-cases (lookup ref.provider r)) [
  | inl e ↦ inr (rw (e, query))
  | inr (p, e) ↦ rw (e, query) (read_answer-cases clock ref (p.ask ref))
]

recognised_kept :
    (clock : ℕ) (ref : Ref) (s : RailStatus) (o : Outcome)
    → s.outcome ≡ o
    → conclusive o ≡ true
    → (recognised clock ref s o).outcome ≡ o
recognised_kept clock ref s settled e h = e
recognised_kept clock ref s failed e h = e
recognised_kept clock ref s not_found e h = e
recognised_kept clock ref s unknown e h = absurd (cc)
recognised_kept clock ref s (unrecognised t) e h = absurd (cc)

Says-query :
    (clock : ℕ) (r : Registry) (ref : Ref) (o : Outcome)
    → conclusive o ≡ true
    → Says r ref o
    → (query clock r ref).outcome ≡ o
unfolding query
Says-query clock r ref o h (p, s, there, told, same) =
    let q : query clock r ref ≡ recognised clock ref s s.outcome = rw (there, query, told) in
    ap (λ (x : RailStatus). x.outcome) q
    ∙ (recognised_kept clock ref s s.outcome refl (subst (λ x. conclusive x ≡ true) (sym same) h)
        ∙ same)

-- The registry gives an outcome that is strong enough to act on exactly if the adapter of the rail
-- answered with this outcome, and else it gives unknown: so it does where the rail has no adapter,
-- where the adapter fails, and where it answers with an outcome that is not one of the four.
pub query-conclusive :
    (clock : ℕ) (r : Registry) (ref : Ref)
    → ((o : Outcome) → conclusive o ≡ true → ((query clock r ref).outcome ≡ o) ↔ Says r ref o)
      × ((conclusive (query clock r ref).outcome ≡ true)
          ⊎ ((query clock r ref).outcome ≡ Outcome.unknown))
query-conclusive clock r ref = (
  λ o h. (
    λ e. subst (Says r ref) e (query-Says clock r ref (subst (λ x. conclusive x ≡ true) (sym e) h)),
    Says-query clock r ref o h,
  ),
  query-cases clock r ref,
)
