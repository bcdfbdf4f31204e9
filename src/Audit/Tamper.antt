-- ===== src/Audit/Tamper.antt =====
-- What a verified chain proves.
use recon_sync.Common.{
  ℕ, suc, ◌+◌, true, ◌≡◌, refl, sym, ap, ◌∙◌, ◌↔◌, inl, inr, Option, none, some, List, [], ◌∷◌,
  ◌++◌, Text, length, text_beq_iff, arith, Option-cases,
}
use recon_sync.Audit.Chain.{
  Record, HashedContent, content, Verification, broken, compute_hash, check_record, walk,
  verify_chain, last_record,
}

-- The hash of the last record.
abbrev pub final_hash : Text → List Record → Text
final_hash prev [] = prev
final_hash prev (r ∷ rs) = final_hash r.hash rs

-- Everything that the hashes of a chain cover.
abbrev pub contents : Text → List Record → List HashedContent
contents prev [] = []
contents prev (r ∷ rs) = content r prev ∷ contents r.hash rs

module _ (digest : HashedContent → Option Text) where
  -- The records carry the positions from `i` on, each names the hash before it, and carries the
  -- hash of its content.
  abbrev pub Linked : ℕ → Text → List Record → Type 0
  Linked i prev [] = Unit
  Linked i prev (r ∷ rs) =
      (r.seq ≡ i)
      × (r.prev_hash ≡ prev)
      × (compute_hash digest r prev ≡ some r.hash)
      × Linked (suc i) r.hash rs

  check_record_iff :
      (i : ℕ) (prev : Text) (r : Record)
      → (check_record digest i prev r ≡ none)
        ↔ ((r.seq ≡ i) × (r.prev_hash ≡ prev) × (compute_hash digest r prev ≡ some r.hash))
  unfolding check_record
  check_record_iff i prev r = elim (Option-cases (compute_hash digest r prev)) [
    | inl e ↦ ground (arith, text_beq_iff r.prev_hash prev)
    | inr (h, e) ↦ ground (arith, text_beq_iff r.prev_hash prev, text_beq_iff h r.hash)
  ]

  walk-Linked :
      (v : Verification) (i : ℕ) (prev : Text) (rs : List Record)
      → v.verified ≡ true
      → ((walk digest v i prev rs).verified ≡ true) ↔ Linked i prev rs
  unfolding walk broken
  walk-Linked v i prev [] h = (λ e. tt, λ e. h)
  walk-Linked v i prev (r ∷ rs) h =
      let (there, back) = check_record_iff i prev r in
      let (onward, home) = walk-Linked v (suc i) r.hash rs h in
      elim (Option-cases (check_record digest i prev r)) [
        | inl e ↦
            let (a, b, c) = there e in rw (e, walk) ((λ w. (a, b, c, onward w)), λ l. home l.3)
        | inr (reason, e) ↦
            rw (e, walk) ((λ w. absurd (cc)), λ l. absurd (cc (e, back (l.0, l.1, l.2))))
      ]

  -- A chain is reported as verified exactly if its records are numbered from 1 without a gap, each
  -- names the hash of the one before it, and each carries the hash of its content.
  pub verify_chain_iff :
      (tenant : Text) (rs : List Record)
      → ((verify_chain digest tenant rs).verified ≡ true) ↔ Linked 1 [] rs
  unfolding verify_chain
  verify_chain_iff tenant [] = (λ e. tt, λ l. refl)
  verify_chain_iff tenant (r ∷ rs) = walk-Linked _ 1 [] (r ∷ rs) refl

  -- At no position do two different contents have one hash.
  abbrev pub NoCollision : Text → List Record → Text → List Record → Type 0
  NoCollision p [] q ss = Unit
  NoCollision p (r ∷ rs) q [] = Unit
  NoCollision p (r ∷ rs) q (s ∷ ss) =
      (digest (content r p) ≡ digest (content s q) → content r p ≡ content s q)
      × NoCollision r.hash rs s.hash ss

  pub chain_unique :
      (i : ℕ) (p q : Text) (rs ss : List Record)
      → Linked i p rs
      → Linked i q ss
      → length rs ≡ length ss
      → final_hash p rs ≡ final_hash q ss
      → NoCollision p rs q ss
      → (p ≡ q) × (contents p rs ≡ contents q ss)
  unfolding compute_hash
  chain_unique i p q [] [] l k n e c = (e, refl)
  chain_unique i p q [] (s ∷ ss) l k n e c = absurd (omega arith)
  chain_unique i p q (r ∷ rs) [] l k n e c = absurd (omega arith)
  chain_unique i p q (r ∷ rs) (s ∷ ss) l k n e c =
      let (hashes, rest) = chain_unique (suc i) r.hash s.hash rs ss l.3 k.3 (omega arith) e c.1 in
      let same : content r p ≡ content s q = c.0 (l.2 ∙ (ap some hashes ∙ sym k.2)) in
      (ap (λ (x : HashedContent). x.prev_hash) same, cc (same, rest))

  -- Two verified chains of the same length that end in the same hash cover the same contents, if at
  -- no position two different contents of theirs have the same hash.
  pub verify_chain_unique :
      (tenant : Text) (rs ss : List Record)
      → (verify_chain digest tenant rs).verified ≡ true
      → (verify_chain digest tenant ss).verified ≡ true
      → length rs ≡ length ss
      → final_hash [] rs ≡ final_hash [] ss
      → NoCollision [] rs [] ss
      → contents [] rs ≡ contents [] ss
  verify_chain_unique tenant rs ss v w n e c =
      (chain_unique 1 [] [] rs ss ((verify_chain_iff tenant rs).0 v)
        ((verify_chain_iff tenant ss).0 w) n e c).1

  Linked-append :
      (i : ℕ) (p : Text) (rs : List Record) (r : Record)
      → Linked i p rs
      → r.seq ≡ i + length rs
      → r.prev_hash ≡ final_hash p rs
      → compute_hash digest r (final_hash p rs) ≡ some r.hash
      → Linked i p (rs ++ r ∷ [])
  Linked-append i p [] r l a b c = (omega arith, b, c, tt)
  Linked-append i p (x ∷ rs) r l a b c =
      (l.0, l.1, l.2, Linked-append (suc i) x.hash rs r l.3 (omega arith) b c)

  -- A verified chain with a record added that continues it is verified.
  pub verify_chain-append :
      (tenant : Text) (rs : List Record) (r : Record)
      → (verify_chain digest tenant rs).verified ≡ true
      → r.seq ≡ length rs + 1
      → r.prev_hash ≡ final_hash [] rs
      → compute_hash digest r (final_hash [] rs) ≡ some r.hash
      → (verify_chain digest tenant (rs ++ r ∷ [])).verified ≡ true
  verify_chain-append tenant rs r v a b c =
      (verify_chain_iff tenant (rs ++ r ∷ [])).1
        (Linked-append 1 [] rs r ((verify_chain_iff tenant rs).0 v) (omega arith) b c)

  -- A walk that breaks nowhere ends at the hash of the last record.
  walk-last_hash :
      (v : Verification) (i : ℕ) (prev : Text) (rs : List Record)
      → (walk digest v i prev rs).verified ≡ true
      → (walk digest v i prev rs).last_hash ≡ final_hash prev rs
  unfolding walk broken
  walk-last_hash v i prev [] h = refl
  walk-last_hash v i prev (r ∷ rs) h = elim (Option-cases (check_record digest i prev r)) [
    | inl e ↦
        let k : (walk digest v (suc i) r.hash rs).verified ≡ true = ground arith in
        rw (e, walk) (walk-last_hash v (suc i) r.hash rs k)
    | inr (reason, e) ↦ absurd (ground arith)
  ]

  pub verify_chain-last_hash :
      (tenant : Text) (rs : List Record)
      → (verify_chain digest tenant rs).verified ≡ true
      → (verify_chain digest tenant rs).last_hash ≡ final_hash [] rs
  unfolding verify_chain
  verify_chain-last_hash tenant [] h = refl
  verify_chain-last_hash tenant (r ∷ rs) h = walk-last_hash _ 1 [] (r ∷ rs) h

  pub last_record-seq :
      (rs : List Record) (i : ℕ) (p : Text) (r : Record)
      → Linked i p (r ∷ rs)
      → (last_record r rs).seq ≡ i + length rs
  last_record-seq [] i p r l = omega (arith, l.0)
  last_record-seq (s ∷ rs) i p r l = omega (arith, last_record-seq rs (suc i) r.hash s l.3)
