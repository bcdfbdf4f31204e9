-- ===== src/Store/Checkpoints/Latest.antt =====
-- The latest checkpoint of a tenant, as checkpoints are saved.
use recon_sync.Common.{
  ◌⊎◌, ℕ, ◌≤◌, true, ◌≡◌, refl, inl, inr, Option, none, some, List, [], ◌∷◌, ◌++◌, Text, Bool-cases,
  Option-cases, text_eq, lookup-insert, lookup-insert_self, ◌=?◌, ◌==◌, arith, text_beq_iff, subst,
  ltb,
}
use recon_sync.Domain.Errors.{ok, err, not_found}
use recon_sync.Audit.Checkpoint.{Checkpoint}
use recon_sync.Store.State.{Memory}
use recon_sync.Store.Checkpoints.{
  checkpoints_of, has_seq, save_checkpoint, later, latest_loop, latest_checkpoint,
}

-- The checkpoint is at position `n` or beyond.
abbrev pub AtLeast : ℕ → Option Checkpoint → Type 0
AtLeast n none = ⊥
AtLeast n (some c) = n ≤ c.seq

AtLeast-later :
    (n : ℕ) (best : Option Checkpoint) (c : Checkpoint) → AtLeast n best → AtLeast n (later best c)
AtLeast-later n (some b) c h = elim (Bool-cases (ltb b.seq c.seq)) [
  | inl e ↦ rw e (ground arith)
  | inr e ↦ rw e h
]
AtLeast-later n none c h = absurd h

AtLeast-later_self : (best : Option Checkpoint) (c : Checkpoint) → AtLeast c.seq (later best c)
AtLeast-later_self (some b) c = elim (Bool-cases (ltb b.seq c.seq)) [
  | inl e ↦ rw e (omega arith)
  | inr e ↦ rw e (ground arith)
]
AtLeast-later_self none c = omega arith

AtLeast-latest_loop :
    (cs : List Checkpoint) (n : ℕ) (best : Option Checkpoint)
    → AtLeast n best
    → AtLeast n (latest_loop best cs)
unfolding latest_loop
AtLeast-latest_loop [] n best h = h
AtLeast-latest_loop (c ∷ cs) n best h =
    AtLeast-latest_loop cs n (later best c) (AtLeast-later n best c h)

latest_loop-append :
    (cs : List Checkpoint) (best : Option Checkpoint) (c : Checkpoint)
    → latest_loop best (cs ++ c ∷ []) ≡ later (latest_loop best cs) c
unfolding latest_loop
latest_loop-append [] best c = refl
latest_loop-append (d ∷ cs) best c = latest_loop-append cs (later best d) c

latest_loop-has_seq :
    (cs : List Checkpoint) (n : ℕ) (best : Option Checkpoint)
    → has_seq n cs ≡ true
    → AtLeast n (latest_loop best cs)
unfolding latest_loop
latest_loop-has_seq [] n best h = absurd (cc)
latest_loop-has_seq (c ∷ cs) n best h = elim (Bool-cases (c.seq == n)) [
  | inl e ↦
      AtLeast-latest_loop cs n (later best c)
        (subst (λ (k : ℕ). AtLeast k (later best c)) (ground arith) (AtLeast-later_self best c))
  | inr e ↦ latest_loop-has_seq cs n (later best c) (ground arith)
]

-- The tenant has a checkpoint at position `n` or beyond.
abbrev pub Signed : ℕ → Text → Memory → Type 0
Signed n tenant m = AtLeast n (latest_loop none (checkpoints_of m tenant))

pub latest_checkpoint-Signed :
    (m : Memory) (tenant : Text) (n : ℕ)
    → Signed n tenant m
    → (c : Checkpoint) × (latest_checkpoint m tenant ≡ ok c) × (n ≤ c.seq)
unfolding latest_checkpoint
latest_checkpoint-Signed m tenant n h =
    elim (Option-cases (latest_loop none (checkpoints_of m tenant))) [
      | inl e ↦ absurd (subst (AtLeast n) e h)
      | inr (c, e) ↦ (c, rw (e, latest_checkpoint), subst (AtLeast n) e h)
    ]

pub Signed-latest_checkpoint :
    (m : Memory) (tenant : Text) (c : Checkpoint) (n : ℕ)
    → latest_checkpoint m tenant ≡ ok c
    → n ≤ c.seq
    → Signed n tenant m
unfolding latest_checkpoint
Signed-latest_checkpoint m tenant c n h le =
    elim (Option-cases (latest_loop none (checkpoints_of m tenant))) [
      | inl e ↦ absurd (ground arith)
      | inr (d, e) ↦ rw e (ground arith)
    ]

-- A saved checkpoint is among those of its tenant.
pub save_checkpoint-Signed_self :
    (m : Memory) (c : Checkpoint) → Signed c.seq c.tenant_id (save_checkpoint m c)
unfolding save_checkpoint
save_checkpoint-Signed_self m c =
    let old = checkpoints_of m c.tenant_id in
    elim (Bool-cases (has_seq c.seq old)) [
      | inl known ↦ rw (known, save_checkpoint) (latest_loop-has_seq old c.seq none known)
      | inr new ↦
          rw
            (
              new,
              save_checkpoint,
              lookup-insert_self c.tenant_id (old ++ c ∷ []) m.checkpoints,
              latest_loop-append old none c,
            )
            (AtLeast-later_self (latest_loop none old) c)
    ]

-- Saving a checkpoint loses none.
pub save_checkpoint-Signed :
    (m : Memory) (c : Checkpoint) (tenant : Text) (n : ℕ)
    → Signed n tenant m
    → Signed n tenant (save_checkpoint m c)
unfolding save_checkpoint
save_checkpoint-Signed m c tenant n h =
    let old = checkpoints_of m c.tenant_id in
    elim (Bool-cases (has_seq c.seq old)) [
      | inl known ↦ rw (known, save_checkpoint) h
      | inr new ↦ elim (Bool-cases (c.tenant_id =? tenant)) [
        | inl e ↦
            let same = (text_beq_iff c.tenant_id tenant).0 e in
            subst (λ (t : Text). Signed n t m → Signed n t (save_checkpoint m c)) same
              (λ k.
                rw
                  (
                    new,
                    save_checkpoint,
                    lookup-insert_self c.tenant_id (old ++ c ∷ []) m.checkpoints,
                    latest_loop-append old none c,
                  )
                  (AtLeast-later n (latest_loop none old) c k))
              h
        | inr e ↦
            rw
              (
                new,
                save_checkpoint,
                lookup-insert c.tenant_id tenant (old ++ c ∷ []) m.checkpoints,
                e,
              )
              h
      ]
    ]

pub save_checkpoint-audit : (m : Memory) (c : Checkpoint) → (save_checkpoint m c).audit ≡ m.audit
unfolding save_checkpoint
save_checkpoint-audit m c = ground arith

pub latest_checkpoint-cases :
    (m : Memory) (tenant : Text)
    → (latest_checkpoint m tenant ≡ err not_found)
      ⊎ ((c : Checkpoint) × (latest_checkpoint m tenant ≡ ok c))
unfolding latest_checkpoint
latest_checkpoint-cases m tenant =
    elim (Option-cases (latest_loop none (checkpoints_of m tenant))) [
      | inl e ↦ inl (rw (e, latest_checkpoint))
      | inr (c, e) ↦ inr (c, rw (e, latest_checkpoint))
    ]
