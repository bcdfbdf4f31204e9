-- ===== src/Store/Claims/Once.antt =====
-- Sequences of calls on the claims, by any workers: a reversal is authorised at most once.
use recon_sync.Common.{
  ℕ, true, false, ◌≡◌, refl, ◌∙◌, inl, inr, none, some, List, [], ◌∷◌, Text, lookup, arith, text_eq,
  pair_eq, ◌=?◌, Option-cases, lookup-insert, lookup-insert_self, lookup-delete, if◌then◌else◌, All,
  pair_beq_iff,
}
use recon_sync.Store.State.{Key, Memory, ReversalClaim}
use recon_sync.Store.Claims.{
  claim_reversal, release_reversal_claim, confirm_reversal_claim, confirm, new_claim,
}

pub data ClaimCall : Type 0 where
  take_claim : Text → Text → Text → Text → ℕ → ClaimCall
  release : Text → Text → ClaimCall
  confirm_at : Text → Text → ℕ → ClaimCall

unfoldable pub exec_claim : Memory → ClaimCall → Memory
exec_claim m (take_claim tenant id by token now) = (claim_reversal m tenant id by token now).0
exec_claim m (release tenant id) = (release_reversal_claim m tenant id).0
exec_claim m (confirm_at tenant id at) = (confirm_reversal_claim m tenant id at).0

unfoldable pub run_claims : Memory → List ClaimCall → Memory
run_claims m [] = m
run_claims m (c ∷ calls) = run_claims (exec_claim m c) calls

-- Who holds a claim, and since when.
abbrev pub SameHolder : ReversalClaim → ReversalClaim → Type 0
SameHolder c d =
    (d.claim_token ≡ c.claim_token) × (d.claimed_by ≡ c.claimed_by) × (d.claimed_at ≡ c.claimed_at)

-- The call does not release the claim under this key.
abbrev pub KeepsClaim : Key → ClaimCall → Type 0
KeepsClaim k (take_claim tenant id by token now) = Unit
KeepsClaim k (release tenant id) = ((tenant, id) =? k) ≡ false
KeepsClaim k (confirm_at tenant id at) = Unit

confirmed_step :
    (m : Memory) (c : ClaimCall) (k : Key) (claim : ReversalClaim) (at : ℕ)
    → lookup k m.claims ≡ some claim
    → claim.confirmed_at ≡ some at
    → lookup k (exec_claim m c).claims ≡ some claim
unfolding exec_claim claim_reversal release_reversal_claim confirm_reversal_claim
confirmed_step m (take_claim tenant id by token now) k claim at h g = ground (
  arith,
  lookup-insert (tenant, id) k (new_claim tenant id by token now) m.claims,
  pair_beq_iff (tenant, id) k,
)
confirmed_step m (release tenant id) k claim at h g =
    ground (arith, lookup-delete (tenant, id) k m.claims, pair_beq_iff (tenant, id) k)
confirmed_step m (confirm_at tenant id at') k claim at h g =
    elim (Option-cases (lookup (tenant, id) m.claims)) [
      | inl e ↦ ground arith
      | inr (c, e) ↦ ground (
        arith,
        lookup-insert (tenant, id) k (confirm at' c) m.claims,
        pair_beq_iff (tenant, id) k,
      )
    ]

-- The claim after a call that does not release it.
kept_claim : ClaimCall → Key → ReversalClaim → ReversalClaim
kept_claim (take_claim tenant id by token now) k claim = claim
kept_claim (release tenant id) k claim = claim
kept_claim (confirm_at tenant id at) k claim = if (tenant, id) =? k then confirm at claim else claim

kept_holder :
    (c : ClaimCall) (k : Key) (claim : ReversalClaim) → SameHolder claim (kept_claim c k claim)
unfolding kept_claim
kept_holder (take_claim tenant id by token now) k claim = (refl, refl, refl)
kept_holder (release tenant id) k claim = (refl, refl, refl)
kept_holder (confirm_at tenant id at) k claim = ground arith

kept_step :
    (m : Memory) (c : ClaimCall) (k : Key) (claim : ReversalClaim)
    → lookup k m.claims ≡ some claim
    → KeepsClaim k c
    → lookup k (exec_claim m c).claims ≡ some (kept_claim c k claim)
unfolding exec_claim claim_reversal release_reversal_claim confirm_reversal_claim kept_claim
kept_step m (take_claim tenant id by token now) k claim h g = ground (
  arith,
  lookup-insert (tenant, id) k (new_claim tenant id by token now) m.claims,
  pair_beq_iff (tenant, id) k,
)
kept_step m (release tenant id) k claim h g =
    ground (arith, lookup-delete (tenant, id) k m.claims, g)
kept_step m (confirm_at tenant id at) k claim h g =
    elim (Option-cases (lookup (tenant, id) m.claims)) [
      | inl e ↦ ground (arith, pair_beq_iff (tenant, id) k)
      | inr (c, e) ↦
          ground (
            arith,
            lookup-insert (tenant, id) k (confirm at c) m.claims,
            pair_beq_iff (tenant, id) k,
          )
    ]

-- A claim that was confirmed is never released, taken again or confirmed anew: no sequence of
-- calls changes it.
pub run_claims-confirmed :
    (m : Memory) (calls : List ClaimCall) (k : Key) (claim : ReversalClaim) (at : ℕ)
    → lookup k m.claims ≡ some claim
    → claim.confirmed_at ≡ some at
    → lookup k (run_claims m calls).claims ≡ some claim
unfolding run_claims
run_claims-confirmed m [] k claim at h g = h
run_claims-confirmed m (c ∷ calls) k claim at h g =
    run_claims-confirmed (exec_claim m c) calls k claim at (confirmed_step m c k claim at h g) g

run_claims-holder :
    (m : Memory) (calls : List ClaimCall) (k : Key) (claim : ReversalClaim)
    → lookup k m.claims ≡ some claim
    → All (KeepsClaim k) calls
    → (claim' : ReversalClaim) × (lookup k (run_claims m calls).claims ≡ some claim')
      × SameHolder claim claim'
unfolding run_claims
run_claims-holder m [] k claim h g = (claim, h, (refl, refl, refl))
run_claims-holder m (c ∷ calls) k claim h g =
    let next = kept_claim c k claim in
    let (claim', e, s) =
      run_claims-holder (exec_claim m c) calls k next (kept_step m c k claim h g.0) g.1 in
    let (p, q, r) = kept_holder c k claim in (claim', e, (s.0 ∙ p, s.1 ∙ q, s.2 ∙ r))

-- Where no claim stands, the first worker that asks for a reversal is granted it; while that
-- claim is not released, whatever else is called on the claims, every later one is refused and
-- told who holds it.
pub claim_reversal-once :
    (m : Memory) (tenant id by token by' token' : Text) (now now' : ℕ) (calls : List ClaimCall)
    → lookup (tenant, id) m.claims ≡ none
    → All (KeepsClaim (tenant, id)) calls
    → let first = claim_reversal m tenant id by token now in
      let later = claim_reversal (run_claims first.0 calls) tenant id by' token' now' in
      (first.1.1 ≡ true)
      × (later.1.1 ≡ false)
      × (later.1.0.claim_token ≡ token)
      × (later.1.0.claimed_by ≡ by)
unfolding claim_reversal
claim_reversal-once m tenant id by token by' token' now now' calls h g =
    let k : Key = (tenant, id) in
    let claim = new_claim tenant id by token now in
    let first : Memory = (claim_reversal m tenant id by token now).0 in
    let held : lookup k first.claims ≡ some claim =
      ground (arith, lookup-insert_self k claim m.claims) in
    let (claim', e, s) = run_claims-holder first calls k claim held g in
    (ground arith, ground arith, ground (arith, s.0), ground (arith, s.1))
