-- ===== src/Store/Checkpoints.antt =====
-- internal/store/memory_checkpoints.go: the signed heads of the audit chains.
pub mod Anchored
pub mod Latest
pub mod Listed
use recon_sync.Common.{
  ℕ, Bool, true, false, ◌||◌, Option, none, some, List, [], ◌∷◌, ◌++◌, Text, lookup, insert, length,
  ltb, ◌==◌, if◌then◌else◌, take, text_eq, sort_slice, Dict,
}
use recon_sync.Domain.Errors.{not_found, Result, ok, err}
use recon_sync.Domain.Status.{text_less}
use recon_sync.Audit.Chain.{Record}
use recon_sync.Audit.Checkpoint.{Checkpoint}
use recon_sync.Store.State.{Memory}

abbrev pub signed_of : Option (List Checkpoint) → List Checkpoint
signed_of none = []
signed_of (some cs) = cs

-- `m.checkpoints[tenantID]`.
abbrev pub checkpoints_of : Memory → Text → List Checkpoint
checkpoints_of m tenant = signed_of (lookup tenant m.checkpoints)

abbrev pub has_seq : ℕ → List Checkpoint → Bool
has_seq seq [] = false
has_seq seq (c ∷ cs) = (c.seq == seq) || has_seq seq cs

unfoldable pub save_checkpoint : Memory → Checkpoint → Memory
save_checkpoint m c = if has_seq c.seq (checkpoints_of m c.tenant_id) then m else record m {
  checkpoints = insert c.tenant_id (checkpoints_of m c.tenant_id ++ c ∷ []) m.checkpoints;
}

abbrev pub later : Option Checkpoint → Checkpoint → Option Checkpoint
later none c = some c
later (some best) c = if ltb best.seq c.seq then some c else some best

unfoldable pub latest_loop : Option Checkpoint → List Checkpoint → Option Checkpoint
latest_loop best [] = best
latest_loop best (c ∷ cs) = latest_loop (later best c) cs

unfoldable pub latest_checkpoint : Memory → Text → Result Checkpoint
unfolding latest_loop
latest_checkpoint m tenant = elim (latest_loop none (checkpoints_of m tenant)) [
  | none ↦ err not_found
  | some c ↦ ok c
]

unfoldable pub list_checkpoints : Memory → Text → ℕ → List Checkpoint
list_checkpoints m tenant limit =
    let most : ℕ = if (limit == 0) || ltb 1000 limit then 100 else limit in
    let out = sort_slice (λ (a b : Checkpoint). ltb b.seq a.seq) (checkpoints_of m tenant) in
    if ltb most (length out) then take most out else out

abbrev pub with_records : Dict Text (List Record) → List Text
with_records [] = []
with_records ((tenant, []) ∷ rest) = with_records rest
with_records ((tenant, r ∷ rs) ∷ rest) = tenant ∷ with_records rest

unfoldable pub tenants_with_audit : Memory → List Text
tenants_with_audit m = sort_slice text_less (with_records m.audit)
