-- ===== src/Store/Checkpoints/Listed.antt =====
-- Every tenant with a record is listed.
use recon_sync.Common.{
  Bool, true, ◌≡◌, some, List, [], ◌∷◌, Text, lookup, insert_sorted, sort_slice, contains, Dict,
  text_eq, arith,
}
use recon_sync.Domain.Status.{text_less}
use recon_sync.Audit.Chain.{Record}
use recon_sync.Store.State.{Memory}
use recon_sync.Store.Checkpoints.{with_records, tenants_with_audit}

-- A tenant with a record is found.
with_records-lookup :
    (d : Dict Text (List Record)) (tenant : Text) (r : Record) (rs : List Record)
    → lookup tenant d ≡ some (r ∷ rs)
    → contains (with_records d) tenant ≡ true
unfolding lookup contains
with_records-lookup [] tenant r rs h = cc
with_records-lookup ((t, []) ∷ d) tenant r rs h = ground (arith, with_records-lookup d tenant r rs)
with_records-lookup ((t, x ∷ xs) ∷ d) tenant r rs h =
    ground (arith, with_records-lookup d tenant r rs)

contains-insert_sorted :
    (less : Text → Text → Bool) (a b : Text) (xs : List Text)
    → contains (a ∷ xs) b ≡ true
    → contains (insert_sorted less a xs) b ≡ true
unfolding insert_sorted contains
contains-insert_sorted less a b [] h = h
contains-insert_sorted less a b (x ∷ xs) h = ground (arith, contains-insert_sorted less a b xs)

contains-sort_slice :
    (less : Text → Text → Bool) (b : Text) (xs : List Text)
    → contains xs b ≡ true
    → contains (sort_slice less xs) b ≡ true
unfolding sort_slice contains
contains-sort_slice less b [] h = h
contains-sort_slice less b (x ∷ xs) h =
    ground
      (arith, contains-insert_sorted less x b (sort_slice less xs), contains-sort_slice less b xs)

-- A tenant that has a record is among those that the store lists.
pub tenants_with_audit-contains :
    (m : Memory) (tenant : Text) (r : Record) (rs : List Record)
    → lookup tenant m.audit ≡ some (r ∷ rs)
    → contains (tenants_with_audit m) tenant ≡ true
unfolding tenants_with_audit
tenants_with_audit-contains m tenant r rs h =
    contains-sort_slice text_less tenant (with_records m.audit)
      (with_records-lookup m.audit tenant r rs h)
