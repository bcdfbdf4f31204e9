-- ===== src/Pipeline/Workers.antt =====
-- The workers by their numbers: replacing one, and those that have ended.
use recon_sync.Common.{
  ℕ, zero, suc, ◌-◌, ◌≤◌, ◌<◌, false, ◌≡◌, ◌⊎◌, refl, ap, inl, inr, some, List, [], ◌∷◌, length,
  All, Bool-cases, arith, ◌==◌,
}
use recon_sync.Pipeline.{Worker, get_worker, set_worker, workers_of}
use recon_sync.Pipeline.Conserved.{held}
use recon_sync.Pipeline.Shutdown.{Ended}

-- A worker that does not run has nothing in its hand.
abbrev pub Emptied : Worker → Type 0
Emptied w = w.running ≡ false → w.batch ≡ []

pub set_worker-All :
    (P : Worker → Type 0) (n : ℕ) (v : Worker) (ws : List Worker)
    → All P ws
    → P v
    → All P (set_worker n v ws)
set_worker-All P n v [] h p = tt
set_worker-All P n v (w ∷ ws) h p = elim (Bool-cases (n == 0)) [
  | inl e ↦ rw e (p, h.1)
  | inr e ↦ rw e (h.0, set_worker-All P (n - 1) v ws h.1 p)
]

pub set_worker-length :
    (n : ℕ) (v : Worker) (ws : List Worker) → length (set_worker n v ws) ≡ length ws
set_worker-length n v [] = refl
set_worker-length n v (w ∷ ws) = ground (arith, set_worker-length (n - 1) v ws)

pub get_worker-set_worker :
    (j n : ℕ) (v w : Worker) (ws : List Worker)
    → get_worker j (set_worker n v ws) ≡ some w
    → ((j ≡ n) × (w ≡ v)) ⊎ (((j == n) ≡ false) × (get_worker j ws ≡ some w))
get_worker-set_worker j n v w [] h = absurd (cc)
get_worker-set_worker j n v w (x ∷ ws) h =
    ground (arith, get_worker-set_worker (j - 1) (n - 1) v w ws)

get_worker-length :
    (j : ℕ) (w : Worker) (ws : List Worker) → get_worker j ws ≡ some w → j < length ws
get_worker-length j w [] h = absurd (cc)
get_worker-length j w (x ∷ ws) h = ground (arith, get_worker-length (j - 1) w ws)

-- Workers below the number do not run.
abbrev pub EndedBelow : ℕ → List Worker → Type 0
EndedBelow n ws = (j : ℕ) (w : Worker) → j < n → get_worker j ws ≡ some w → w.running ≡ false

get_worker-suc :
    (j : ℕ) (w v : Worker) (ws : List Worker)
    → get_worker j ws ≡ some v
    → get_worker (suc j) (w ∷ ws) ≡ some v
get_worker-suc j w v ws at =
    let later : (suc j == 0) ≡ false = ground arith in
    let back : suc j - 1 ≡ j = omega arith in rw (later, back) at

pub EndedBelow-Ended : (ws : List Worker) (n : ℕ) → EndedBelow n ws → length ws ≤ n → Ended ws
EndedBelow-Ended [] n h le = tt
EndedBelow-Ended (w ∷ ws) n h le = (
  h 0 w (omega (arith, le)) refl,
  EndedBelow-Ended ws (n - 1)
      (λ j v lt at. h (suc j) v (omega (arith, lt)) (get_worker-suc j w v ws at))
      (omega (arith, le)),
)

pub Ended-held : (ws : List Worker) → Ended ws → All Emptied ws → held ws ≡ 0
Ended-held [] e m = refl
Ended-held (w ∷ ws) e m = omega (arith, ap length (m.0 e.0), Ended-held ws e.1 m.1)

pub workers_of-Emptied : (n : ℕ) → All Emptied (workers_of n)
workers_of-Emptied zero = tt
workers_of-Emptied (suc n) = (λ e. absurd (cc), workers_of-Emptied n)
