-- ===== src/Pipeline/Conserved.antt =====
-- What holds in every state that the pipeline can reach: every event is accounted for.
use recon_sync.Common.{
  ℕ, ◌+◌, ◌-◌, ◌≤◌, Bool, true, false, ◌≡◌, refl, sym, ap, subst, ◌∙◌, inl, inr, some, List, [],
  ◌∷◌, ◌++◌, Text, length, length-append, All, Bool-cases, Option-cases, arith, ltb, leb, ◌==◌,
  if_cases, zero, suc,
}
use recon_sync.Domain.Event.{Event}
use recon_sync.Pipeline.{
  Worker, Pipeline, submit, get_worker, set_worker, put, idle, flush, take_event, when_running,
  receive, tick, cancelled, close, Step, submits, receives, ticks, cancels, closes, Reach, here,
  next, Config, workers_of, new_pipeline, set_defaults,
}
use recon_sync.Pipeline.Grouping.{OneTenant, gone, flush_lem}

-- The events in the hands of the workers.
abbrev pub held : List Worker → ℕ
held [] = 0
held (w ∷ ws) = length w.batch + held ws

set_worker-held :
    (n : ℕ) (v w : Worker) (ws : List Worker)
    → get_worker n ws ≡ some w
    → held (set_worker n v ws) + length w.batch ≡ held ws + length v.batch
set_worker-held n v w [] h = absurd (cc)
set_worker-held n v w (x ∷ ws) h = elim (Bool-cases (n == 0)) [
  | inl e ↦ ground (arith, e)
  | inr e ↦
      let later : get_worker (n - 1) ws ≡ some w = ground arith in
      let rest = set_worker-held (n - 1) v w ws later in rw e (omega (arith, rest))
]

-- Every event that was received is in the queue, in the hands of a worker, flushed, or in a batch
-- that the handler failed on, as the observer was told; the queue is no longer than its capacity;
-- and each call of the handler has the events of one tenant.
abbrev pub Conserved : Pipeline → Type 0
Conserved p =
    (p.received ≡ length p.ingest + held p.hands + gone p)
    × (length p.ingest ≤ p.cfg.buffer_size)
    × All OneTenant p.handled

submit-Conserved : (p : Pipeline) (ev : Event) → Conserved p → Conserved (submit p ev).0
unfolding submit
submit-Conserved p ev (counted, bound, called) = elim (Bool-cases p.closed) [
  | inl e ↦ rw (e, submit) (counted, bound, called)
  | inr e ↦ elim (Bool-cases (ltb (length p.ingest) p.cfg.buffer_size)) [
    | inl room ↦
        let longer = length-append p.ingest (ev ∷ []) in
        rw (e, submit, room) (omega (arith, longer), ground (arith, longer, room), called)
    | inr full ↦ rw (e, submit, full) (counted, bound, called)
  ]
]

module _ (handle : ℕ → Text → List Event → Bool) where
  -- A worker hands over a batch and goes on, or ends, with nothing in its hand.
  put-flush-Conserved :
      (p : Pipeline) (n : ℕ) (w v : Worker) (batch : List Event)
      → get_worker n p.hands ≡ some w
      → length v.batch ≡ 0
      → p.received + length w.batch ≡ length p.ingest + held p.hands + gone p + length batch
      → length p.ingest ≤ p.cfg.buffer_size
      → All OneTenant p.handled
      → Conserved (put handle n v (flush handle p batch))
  put-flush-Conserved p n w v batch at empty counted bound called =
      let q = flush handle p batch in
      let (same, moved, calls) = flush_lem handle p batch called in
      let (cfg, ingest, closed, hands, received, dropped) = same in
      let swapped = set_worker-held n v w q.hands (ap (get_worker n) hands ∙ at) in
      (
        omega (arith, counted, moved, swapped, empty, received, ap length ingest, ap held hands),
        subst (λ m. m ≤ q.cfg.buffer_size) (sym (ap length ingest))
            (subst (λ (c : Config). length p.ingest ≤ c.buffer_size) (sym cfg) bound),
        calls,
      )

  module _ (p : Pipeline) (n : ℕ) (c : Conserved p) where
    emptied :
        (w v : Worker)
        → get_worker n p.hands ≡ some w
        → length v.batch ≡ 0
        → Conserved (put handle n v (flush handle p w.batch))
    emptied w v at empty = put-flush-Conserved p n w v w.batch at empty (omega (arith, c.0)) c.1 c.2

    take_event-Conserved :
        (w : Worker) (events : List Event)
        → get_worker n p.hands ≡ some w
        → p.ingest ≡ events
        → Conserved (take_event handle n w events p)
    unfolding take_event
    take_event-Conserved w [] at e =
        if_cases Conserved p.closed
          (put handle n (record { batch = []; running = false }) (flush handle p w.batch)) p
          (λ f. emptied w (record { batch = []; running = false }) at refl) (λ f. c)
    take_event-Conserved w (ev ∷ rest) at e =
        let q : Pipeline = record p { ingest = rest } in
        let batch = w.batch ++ ev ∷ [] in
        let longer = length-append w.batch (ev ∷ []) in
        let shorter = ap length e in
        let bound : length rest ≤ p.cfg.buffer_size = ground (arith, shorter, c.1) in
        elim (Bool-cases (leb p.cfg.batch_size (length batch))) [
          | inl full ↦
              rw (full, take_event)
                (put-flush-Conserved q n w idle batch at refl (omega (arith, c.0, longer, shorter))
                  bound c.2)
          | inr room ↦
              let kept : Worker = record { batch = batch; running = true } in
              let swapped = set_worker-held n kept w p.hands at in
              rw (room, take_event) (omega (arith, c.0, longer, shorter, swapped), bound, c.2)
        ]

    when_running-Conserved :
        (act : Worker → Pipeline)
        → ((w : Worker) → get_worker n p.hands ≡ some w → Conserved (act w))
        → Conserved (when_running handle p act (get_worker n p.hands))
    when_running-Conserved act h = elim (Option-cases (get_worker n p.hands)) [
      | inl e ↦ rw e c
      | inr (w, e) ↦ rw e (if_cases Conserved w.running (act w) p (λ f. h w e) (λ f. c))
    ]

  pub Step-Conserved : {p q : Pipeline} → Conserved p → Step handle p q → Conserved q
  unfolding receive tick cancelled close
  Step-Conserved {p} c (submits ev) = submit-Conserved p ev c
  Step-Conserved {p} c (receives n) =
      when_running-Conserved p n c (λ w. take_event handle n w p.ingest p)
        (λ w at. take_event-Conserved p n c w p.ingest at refl)
  Step-Conserved {p} c (ticks n) =
      when_running-Conserved p n c (λ w. put handle n idle (flush handle p w.batch))
        (λ w at. emptied p n c w idle at refl)
  Step-Conserved {p} c (cancels n) =
      let ended : Worker = record { batch = []; running = false } in
      when_running-Conserved p n c (λ w. put handle n ended (flush handle p w.batch))
        (λ w at. emptied p n c w ended at refl)
  Step-Conserved {p} c closes = c

  Reach-Conserved : {p q : Pipeline} → Conserved p → Reach handle p q → Conserved q
  Reach-Conserved c here = c
  Reach-Conserved c (next r s) = Step-Conserved (Reach-Conserved c r) s

  workers_of-held : (n : ℕ) → held (workers_of n) ≡ 0
  workers_of-held zero = refl
  workers_of-held (suc n) = omega (arith, workers_of-held n)

  -- In every state that a new pipeline reaches, whatever producers, workers, tickers, cancellation
  -- and closing do, in any order, and whichever calls the handler fails: every event that was
  -- received is in the queue, in the hands of a worker, flushed, or in a batch that the observer was
  -- told has failed; the queue is within its capacity; and no call of the handler spans tenants.
  pub new_pipeline-Conserved :
      (procs : ℕ) (cfg : Config) {p : Pipeline}
      → Reach handle (new_pipeline procs cfg) p
      → Conserved p
  unfolding new_pipeline
  new_pipeline-Conserved procs cfg r =
      Reach-Conserved
        (sym (omega (arith, workers_of-held (set_defaults procs cfg).workers)), omega arith, tt) r
