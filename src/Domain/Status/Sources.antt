-- ===== src/Domain/Status/Sources.antt =====
-- `SourcesFor`, from which the store builds the guard of its UPDATE.
use recon_sync.Common.{true, ◌≡◌, List, [], ◌∷◌, arith, contains}
use recon_sync.Domain.Status.{
  Status, completed, can_transition, sources_for, string, text_less, status_eq,
}

abbrev pub Ascending : List Status → Type 0
Ascending [] = Unit
Ascending (s ∷ []) = Unit
Ascending (s ∷ t ∷ ts) = (text_less (string s) (string t) ≡ true) × Ascending (t ∷ ts)

-- A status is among the sources of a target exactly if the machine allows the move.
pub contains-sources_for :
    (target from : Status) → contains (sources_for target) from ≡ can_transition from target
unfolding sources_for can_transition contains
contains-sources_for completed from = ground arith
contains-sources_for target from = ground arith

-- The sources are in strictly ascending order of their names.
pub sources_for-Ascending : (target : Status) → Ascending (sources_for target)
unfolding sources_for text_less string contains
sources_for-Ascending completed = ground arith
sources_for-Ascending target = ground arith
