-- ===== src/Pipeline/Shutdown.antt =====
-- The pipeline without workers: the queue only grows.
use recon_sync.Common.{
  ℕ, ◌-◌, Bool, false, ◌≡◌, refl, sym, ap, subst, ◌∙◌, inl, inr, some, List, [], ◌∷◌, ◌++◌, Text,
  length, All, Bool-cases, Option-cases, arith, ltb, ◌==◌, if_cases,
}
use mathlib.Core.List.{append_assoc, append-nil}
use recon_sync.Domain.Event.{Event}
use recon_sync.Pipeline.{
  Worker, Pipeline, Submitted, refused, submit, get_worker, put, idle, flush, take_event,
  when_running, receive, tick, cancelled, close, Step, submits, receives, ticks, cancels, closes,
  Reach, here, next,
}
use recon_sync.Pipeline.Grouping.{gone}

-- No worker runs.
abbrev pub Ended : List Worker → Type 0
Ended ws = All (λ (w : Worker). w.running ≡ false) ws

get_worker-Ended :
    (ws : List Worker) (n : ℕ) (w : Worker)
    → Ended ws
    → get_worker n ws ≡ some w
    → w.running ≡ false
get_worker-Ended [] n w e h = absurd (cc)
get_worker-Ended (x ∷ ws) n w e h = elim (Bool-cases (n == 0)) [
  | inl f ↦ let same : x ≡ w = ground arith in subst (λ (v : Worker). v.running ≡ false) same e.0
  | inr f ↦ get_worker-Ended ws (n - 1) w e.1 (ground arith)
]

module _ (handle : ℕ → Text → List Event → Bool) where
  -- What stays: the front of the queue, what went to the handler, and that no worker runs.
  abbrev pub Stuck : Pipeline → Pipeline → Type 0
  Stuck p q =
      ((later : List Event) × (q.ingest ≡ p.ingest ++ later))
      × (q.handled ≡ p.handled)
      × (gone q ≡ gone p)
      × Ended q.hands

  when_running-same :
      (p : Pipeline) (n : ℕ) (act : Worker → Pipeline)
      → Ended p.hands
      → when_running handle p act (get_worker n p.hands) ≡ p
  when_running-same p n act e = elim (Option-cases (get_worker n p.hands)) [
    | inl f ↦ rw f refl
    | inr (w, f) ↦ rw (f, get_worker-Ended p.hands n w e f) refl
  ]

  Step-Stuck : (p : Pipeline) {q r : Pipeline} → Stuck p q → Step handle q r → Stuck p r
  unfolding submit receive tick cancelled close
  Step-Stuck p {q} ((later, queue), handed, counted, e) (submits ev) =
      if_cases (λ (x : Pipeline × Submitted). Stuck p x.0) q.closed (q, refused) _
        (λ c. ((later, queue), handed, counted, e))
        (λ c.
          if_cases (λ (x : Pipeline × Submitted). Stuck p x.0)
            (ltb (length q.ingest) q.cfg.buffer_size) _ _
            (λ room. (
              (
                later ++ ev ∷ [],
                ap (λ (l : List Event). l ++ ev ∷ []) queue ∙ append_assoc p.ingest later (ev ∷ []),
              ),
              handed,
              counted,
              e,
            ))
            (λ full. ((later, queue), handed, counted, e)))
  Step-Stuck p {q} s (receives n) =
      subst (Stuck p) (sym (when_running-same q n (λ w. take_event handle n w q.ingest q) s.3)) s
  Step-Stuck p {q} s (ticks n) =
      subst (Stuck p)
        (sym (when_running-same q n (λ w. put handle n idle (flush handle q w.batch)) s.3)) s
  Step-Stuck p {q} s (cancels n) =
      let ended : Worker = record { batch = []; running = false } in
      subst (Stuck p)
        (sym (when_running-same q n (λ w. put handle n ended (flush handle q w.batch)) s.3)) s
  Step-Stuck p s closes = s

  pub Reach-Stuck : {p q : Pipeline} → Ended p.hands → Reach handle p q → Stuck p q
  Reach-Stuck {p} e here = (([], sym (append-nil p.ingest)), refl, refl, e)
  Reach-Stuck {p} e (next r s) = Step-Stuck p (Reach-Stuck e r) s
