-- ===== src/Recorder/Counted.antt =====
-- What each operation of the recorder does to the count of one tenant and minute.
use recon_sync.Common.{
  ℕ, ◌+◌, true, ◌≡◌, refl, ap, ◌∙◌, inl, inr, Option, none, some, List, [], ◌∷◌, Text, lookup,
  insert, lookup-insert, length, ◌==◌, ◌=?◌, if◌then◌else◌, text_eq, nat_eq, pair_eq, arith,
  Bool-cases,
}
use recon_sync.Pipeline.{Observation, accepted, dropped, batch_failed}
use recon_sync.Store.State.{Memory, IngestSample}
use recon_sync.Store.Health.{truncate, record_ingest_health, add_sample, sample_or_zero}
use recon_sync.Recorder.Whole.{Whole}
use recon_sync.Recorder.{
  Counts, Bucket, Pending, Recorder, counts_or_zero, bump, observe, samples_of, merged, restore,
}

abbrev pub Field : Type 0
Field = Counts → ℕ

abbrev pub counts_of : IngestSample → Counts
counts_of s = record {
  received = s.received;
  dropped = s.dropped;
  handler_errors = s.handler_errors;
}

-- What an observation adds, and for whom.
abbrev pub delta : Observation → Counts
delta (accepted tenant) = record { received = 1; dropped = 0; handler_errors = 0 }
delta (dropped tenant) = record { received = 0; dropped = 1; handler_errors = 0 }
delta (batch_failed tenant events) = record { received = 0; dropped = 0; handler_errors = events }

abbrev pub tenant_of : Observation → Text
tenant_of (accepted tenant) = tenant
tenant_of (dropped tenant) = tenant
tenant_of (batch_failed tenant events) = tenant

abbrev pub plus : Counts → Counts → Counts
plus a b = merged (some a) b

module _ (field : Field) (k : Bucket) where
  -- The observations of the tenant in the minute; those without a tenant are not counted.
  abbrev pub noted : List (ℕ × Observation) → ℕ
  noted [] = 0
  noted ((now, o) ∷ seen) =
      let rest = noted seen in
      if length (tenant_of o) == 0
      then rest
      else if (tenant_of o, truncate now) =? k
      then field (delta o) + rest
      else rest

  abbrev pub held_at : Pending → ℕ
  held_at [] = 0
  held_at ((j, c) ∷ pending) = let rest = held_at pending in if j =? k then field c + rest else rest

  abbrev pub in_flight_at : Option Pending → ℕ
  in_flight_at none = 0
  in_flight_at (some taken) = held_at taken

  abbrev pub stored_at : Memory → ℕ
  stored_at m = field (counts_of (sample_or_zero (lookup k m.health)))

  -- In the store, in flight or pending.
  abbrev pub total_at : Recorder → ℕ
  total_at r = stored_at r.memory + in_flight_at r.in_flight + held_at r.pending

-- A counter adds up.
abbrev pub Additive : Field → Type 0
Additive field =
    (field (counts_or_zero none) ≡ 0) × ((a b : Counts) → field (plus a b) ≡ field a + field b)

beq_sound : (i j : Bucket) → (i =? j) ≡ true → i ≡ j
beq_sound i j f = (pair_eq.beq_iff i j).0 f

module _ (field : Field) (add : Additive field) (k : Bucket) where
  pub insert-held_at :
      (j : Bucket) (v c : Counts) (pending : Pending)
      → field v ≡ field (counts_or_zero (lookup j pending)) + field c
      → held_at field k (insert j v pending)
        ≡ held_at field k pending + (if j =? k then field c else 0)
  unfolding insert lookup
  insert-held_at j v c [] e = ground (arith, add.0, e)
  insert-held_at j v c ((i, d) ∷ pending) e = elim (Bool-cases (i =? j)) [
    | inl f ↦
        let same : (i =? k) ≡ (j =? k) = ap (λ (x : Bucket). x =? k) (beq_sound i j f) in
        let sum : field v ≡ field d + field c = ground (arith, e, f) in
        rw f (elim (Bool-cases (j =? k)) [
          | inl g ↦ rw (same, g) (omega (arith, sum))
          | inr g ↦ rw (same, g) (omega arith)
        ])
    | inr f ↦
        let there : field v ≡ field (counts_or_zero (lookup j pending)) + field c =
          ground (arith, e, f) in
        rw f (ground (arith, insert-held_at j v c pending there))
  ]

  merged-field :
      (existing : Option Counts) (c : Counts)
      → field (merged existing c) ≡ field (counts_or_zero existing) + field c
  merged-field none c = omega (arith, add.0)
  merged-field (some a) c = add.1 a c

  pub restore-held_at :
      (taken pending : Pending)
      → held_at field k (restore taken pending) ≡ held_at field k taken + held_at field k pending
  unfolding restore
  restore-held_at [] pending = omega arith
  restore-held_at ((j, c) ∷ taken) pending =
      let v = merged (lookup j pending) c in
      let sum : field v ≡ field (counts_or_zero (lookup j pending)) + field c =
        merged-field (lookup j pending) c in
      ground (arith, insert-held_at j v c pending sum, restore-held_at taken (insert j v pending))

  add_sample-stored_at :
      (j : Bucket) (c : Counts) (m : Memory)
      → truncate j.1 ≡ j.1
      → stored_at field k (
          add_sample m (record {
            tenant_id = j.0;
            bucket = j.1;
            received = c.received;
            dropped = c.dropped;
            handler_errors = c.handler_errors;
          }))
        ≡ stored_at field k m + (if j =? k then field c else 0)
  unfolding add_sample
  add_sample-stored_at j c m whole =
      let key : Bucket = (j.0, truncate j.1) in
      let cur = sample_or_zero (lookup key m.health) in
      let cur' : IngestSample = record cur {
        received = cur.received + c.received;
        dropped = cur.dropped + c.dropped;
        handler_errors = cur.handler_errors + c.handler_errors;
      } in
      let same : (key =? k) ≡ (j =? k) = ap (λ (t : ℕ). (j.0, t) =? k) whole in
      let at = lookup-insert key k cur' m.health in
      elim (Bool-cases (j =? k)) [
        | inl g ↦
            let hit : lookup k (insert key cur' m.health) ≡ some cur' = at ∙ rw (same ∙ g) refl in
            let old =
              ap (λ (b : Bucket). field (counts_of (sample_or_zero (lookup b m.health))))
                (beq_sound key k (same ∙ g)) in
            rw (hit, g) (omega (arith, add.1 (counts_of cur) c, old))
        | inr g ↦
            let miss : lookup k (insert key cur' m.health) ≡ lookup k m.health =
              at ∙ rw (same ∙ g) refl in
            rw (miss, g) (omega arith)
      ]

  pub record_ingest_health-stored_at :
      (taken : Pending) (m : Memory)
      → Whole taken
      → stored_at field k (record_ingest_health m (samples_of taken))
        ≡ stored_at field k m + held_at field k taken
  unfolding record_ingest_health add_sample
  record_ingest_health-stored_at [] m w = omega arith
  record_ingest_health-stored_at ((j, c) ∷ taken) m w =
      let s : IngestSample = record {
        tenant_id = j.0;
        bucket = j.1;
        received = c.received;
        dropped = c.dropped;
        handler_errors = c.handler_errors;
      } in
      let m' = add_sample m s in
      ground (arith, add_sample-stored_at j c m w.0, record_ingest_health-stored_at taken m' w.1)

  bump-held_at :
      (now : ℕ) (o : Observation) (f : Counts → Counts) (pending : Pending)
      → ((c : Counts) → field (f c) ≡ field c + field (delta o))
      → held_at field k (bump now (tenant_of o) f pending)
        ≡ held_at field k pending + noted field k ((now, o) ∷ [])
  unfolding bump
  bump-held_at now o f pending h = elim (Bool-cases (length (tenant_of o) == 0)) [
    | inl e ↦ rw (e, bump) (omega arith)
    | inr e ↦
        let j : Bucket = (tenant_of o, truncate now) in
        let old = counts_or_zero (lookup j pending) in
        rw (e, bump) (ground (arith, insert-held_at j (f old) (delta o) pending (h old)))
  ]

  pub observe-held_at :
      (now : ℕ) (o : Observation) (pending : Pending)
      → held_at field k (observe now o pending)
        ≡ held_at field k pending + noted field k ((now, o) ∷ [])
  unfolding observe
  observe-held_at now (accepted tenant) pending =
      bump-held_at now (accepted tenant) (λ c. record c { received = c.received + 1 }) pending
        (λ c.
          let same : record c { received = c.received + 1 } ≡ plus c (delta (accepted tenant)) =
            ground arith in
          ap field same ∙ add.1 c (delta (accepted tenant)))
  observe-held_at now (dropped tenant) pending =
      bump-held_at now (dropped tenant) (λ c. record c { dropped = c.dropped + 1 }) pending
        (λ c.
          let same : record c { dropped = c.dropped + 1 } ≡ plus c (delta (dropped tenant)) =
            ground arith in
          ap field same ∙ add.1 c (delta (dropped tenant)))
  observe-held_at now (batch_failed tenant events) pending =
      let o = batch_failed tenant events in
      let f : Counts → Counts = λ c. record c { handler_errors = c.handler_errors + events } in
      elim (Bool-cases (events == 0)) [
        | inl e ↦
            let none_lost : events ≡ 0 = ground (arith, e) in
            let zero_delta = ap (λ (n : ℕ). field (delta (batch_failed tenant n))) none_lost in
            rw (e, observe) (ground (arith, zero_delta, add.0))
        | inr e ↦
            rw (e, observe)
              (bump-held_at now o f pending (λ c.
                let same : f c ≡ plus c (delta o) = ground arith in
                ap field same ∙ add.1 c (delta o)))
      ]
