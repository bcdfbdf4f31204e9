-- ===== src/Pipeline/Grouping.antt =====
-- A flush hands each group of a batch to the handler: nothing is lost, and no call spans tenants.
use recon_sync.Common.{
  ℕ, ◌+◌, Bool, true, false, ◌≡◌, refl, sym, ap, subst, ◌∙◌, inl, inr, List, [], ◌∷◌, ◌++◌, Text,
  lookup, insert, length, length-append, All, All-append, Bool-cases, text_eq, ◌=?◌, ◌==◌,
  text_beq_iff, arith,
}
use recon_sync.Domain.Event.{Event, event_tenant_id}
use recon_sync.Pipeline.{
  Observation, accepted, dropped, batch_failed, Pipeline, Groups, group_of, group_loop, flush_group,
  flush_groups, flush,
}

-- The events in a map of groups.
abbrev pub size_of : Groups → ℕ
size_of [] = 0
size_of ((tenant, events) ∷ groups) = length events + size_of groups

-- The events of batches that the handler failed on.
abbrev pub failed_events : List Observation → ℕ
failed_events [] = 0
failed_events (accepted t ∷ os) = failed_events os
failed_events (dropped t ∷ os) = failed_events os
failed_events (batch_failed t n ∷ os) = n + failed_events os

-- Every event is the tenant's.
abbrev pub OneTenant : Text × List Event → Type 0
OneTenant g = All (λ (ev : Event). event_tenant_id ev ≡ g.0) g.1

-- The event joins the group of the key.
abbrev joined : Text → Event → Groups → Groups
joined k ev groups = insert k (group_of (lookup k groups) ++ ev ∷ []) groups

joined_here :
    (groups : Groups) (t k : Text) (events : List Event) (ev : Event)
    → (t =? k) ≡ true
    → joined k ev ((t, events) ∷ groups) ≡ (k, events ++ ev ∷ []) ∷ groups
unfolding insert lookup
joined_here groups t k events ev e = ground arith

joined_later :
    (groups : Groups) (t k : Text) (events : List Event) (ev : Event)
    → (t =? k) ≡ false
    → joined k ev ((t, events) ∷ groups) ≡ (t, events) ∷ joined k ev groups
unfolding insert lookup
joined_later groups t k events ev e = ground arith

insert-size_of :
    (groups : Groups) (k : Text) (ev : Event) → size_of (joined k ev groups) ≡ size_of groups + 1
unfolding insert lookup
insert-size_of [] k ev = refl
insert-size_of ((t, events) ∷ groups) k ev = elim (Bool-cases (t =? k)) [
  | inl e ↦
      omega (arith, ap size_of (joined_here groups t k events ev e), length-append events (ev ∷ []))
  | inr e ↦
      omega (arith, ap size_of (joined_later groups t k events ev e), insert-size_of groups k ev)
]

group_loop-size_of :
    (batch : List Event) (groups : Groups)
    → size_of (group_loop batch groups) ≡ size_of groups + length batch
unfolding group_loop
group_loop-size_of [] groups = omega arith
group_loop-size_of (ev ∷ batch) groups = omega (
  arith,
  insert-size_of groups (event_tenant_id ev) ev,
  group_loop-size_of batch (
      insert (event_tenant_id ev) (group_of (lookup (event_tenant_id ev) groups) ++ ev ∷ [])
        groups),
)

insert-OneTenant :
    (groups : Groups) (ev : Event)
    → All OneTenant groups
    → All OneTenant (joined (event_tenant_id ev) ev groups)
unfolding insert lookup
insert-OneTenant [] ev h = ((refl, tt), tt)
insert-OneTenant ((t, events) ∷ groups) ev h =
    let k = event_tenant_id ev in
    elim (Bool-cases (t =? k)) [
      | inl e ↦
          let same = (text_beq_iff t k).0 e in
          let moved : OneTenant (k, events) =
            subst (λ (u : Text). OneTenant (u, events)) same h.0 in
          subst (All OneTenant) (sym (joined_here groups t k events ev e)) (
            All-append (λ (x : Event). event_tenant_id x ≡ k) events (ev ∷ []) moved (refl, tt),
            h.1,
          )
      | inr e ↦
          subst (All OneTenant) (sym (joined_later groups t k events ev e))
            (h.0, insert-OneTenant groups ev h.1)
    ]

group_loop-OneTenant :
    (batch : List Event) (groups : Groups)
    → All OneTenant groups
    → All OneTenant (group_loop batch groups)
unfolding group_loop
group_loop-OneTenant [] groups h = h
group_loop-OneTenant (ev ∷ batch) groups h =
    group_loop-OneTenant batch
      (insert (event_tenant_id ev) (group_of (lookup (event_tenant_id ev) groups) ++ ev ∷ [])
        groups)
      (insert-OneTenant groups ev h)

-- What is not touched by a flush.
abbrev pub SameQueue : Pipeline → Pipeline → Type 0
SameQueue p q =
    (q.cfg ≡ p.cfg)
    × (q.ingest ≡ p.ingest)
    × (q.closed ≡ p.closed)
    × (q.hands ≡ p.hands)
    × (q.received ≡ p.received)
    × (q.dropped_events ≡ p.dropped_events)

-- The events that went to the handler.
abbrev pub gone : Pipeline → ℕ
gone p = p.flushed + failed_events p.observed

module _ (handle : ℕ → Text → List Event → Bool) where
  flush_group_lem :
      (p : Pipeline) (t : Text) (events : List Event)
      → SameQueue p (flush_group handle p t events)
        × (gone (flush_group handle p t events) ≡ gone p + length events)
        × ((flush_group handle p t events).handled ≡ (t, events) ∷ p.handled)
  unfolding flush_group
  flush_group_lem p t events = elim (Bool-cases (handle p.batches t events)) [
    | inl e ↦ rw (e, flush_group) ((refl, refl, refl, refl, refl, refl), omega arith, refl)
    | inr e ↦ rw (e, flush_group) ((refl, refl, refl, refl, refl, refl), omega arith, refl)
  ]

  SameQueue-trans : (p q r : Pipeline) → SameQueue p q → SameQueue q r → SameQueue p r
  SameQueue-trans p q r (a, b, c, d, e, f) (a', b', c', d', e', f') =
      (a' ∙ a, b' ∙ b, c' ∙ c, d' ∙ d, e' ∙ e, f' ∙ f)

  flush_groups_lem :
      (groups : Groups) (p : Pipeline)
      → All OneTenant groups
      → All OneTenant p.handled
      → SameQueue p (flush_groups handle groups p)
        × (gone (flush_groups handle groups p) ≡ gone p + size_of groups)
        × All OneTenant (flush_groups handle groups p).handled
  unfolding flush_groups
  flush_groups_lem [] p g h = ((refl, refl, refl, refl, refl, refl), omega arith, h)
  flush_groups_lem ((t, events) ∷ groups) p g h =
      let q = flush_group handle p t events in
      let (same, counted, called) = flush_group_lem p t events in
      let (same', counted', called') =
        flush_groups_lem groups q g.1 (subst (All OneTenant) (sym called) (g.0, h)) in
      (
        SameQueue-trans p q (flush_groups handle groups q) same same',
        omega (arith, counted, counted'),
        called',
      )

  -- A flush hands over every event of the batch, in calls for one tenant each.
  pub flush_lem :
      (p : Pipeline) (batch : List Event)
      → All OneTenant p.handled
      → SameQueue p (flush handle p batch)
        × (gone (flush handle p batch) ≡ gone p + length batch)
        × All OneTenant (flush handle p batch).handled
  unfolding flush
  flush_lem p [] h = ((refl, refl, refl, refl, refl, refl), omega arith, h)
  flush_lem p (ev ∷ batch) h =
      let groups = group_loop (ev ∷ batch) [] in
      let there : (length (ev ∷ batch) == 0) ≡ false = ground arith in
      let (same, counted, called) =
        flush_groups_lem groups p (group_loop-OneTenant (ev ∷ batch) [] tt) h in
      rw (there, flush) (same, omega (arith, counted, group_loop-size_of (ev ∷ batch) []), called)
