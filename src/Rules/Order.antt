-- ===== src/Rules/Order.antt =====
-- `better` is a strict order, total on rules with different identifiers.
use recon_sync.Common.{true, false, ◌≡◌, arith}
use recon_sync.Rules.{Rule, better}

pub better_irrefl : (r : Rule) → better r r ≡ false
unfolding better
better_irrefl r = ground arith

pub better_trans : (r s t : Rule) → better r s ≡ true → better s t ≡ true → better r t ≡ true
unfolding better
better_trans r s t h k = ground arith

-- What is beaten by nothing that beats it: not being better is transitive too.
pub not_better_trans : (r s t : Rule) → better r s ≡ false → better s t ≡ false → better r t ≡ false
unfolding better
not_better_trans r s t h k = ground arith

-- Two rules of which neither is better have the same identifier.
pub not_better_id : (r s : Rule) → better r s ≡ false → better s r ≡ false → r.id ≡ s.id
unfolding better
not_better_id r s h k = ground arith
