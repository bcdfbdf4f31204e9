-- ===== src/Evidence/Confidence.antt =====
-- Bounds of the confidence.
use recon_sync.Common.{◌≤◌, some, ℤ, pos, negsuc, arith, none}
use recon_sync.Evidence.{Evidence, clamped, total_weight, confidence}

clamped-le : (z : ℤ) → clamped z ≤ 100
clamped-le (pos n) = ground arith
clamped-le (negsuc n) = omega arith

-- The confidence is at most a hundred hundredths, whatever the signals weigh.
pub confidence-le : (ev : Evidence) → confidence ev ≤ 100
unfolding confidence
confidence-le (some signals) = clamped-le (total_weight (pos 0) signals)
confidence-le none = omega arith
