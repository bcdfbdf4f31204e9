-- ===== src/Pipeline/Cancelled.antt =====
-- How the pipeline ends when its context is cancelled.
use recon_sync.Common.{
  ℕ, zero, suc, ◌+◌, ◌≤◌, Bool, true, false, ◌≡◌, refl, sym, ap, subst, ◌∙◌, inl, inr, some, List,
  [], ◌∷◌, ◌++◌, Text, length, All, Bool-cases, Option-cases, arith, leb, ◌==◌, if_cases,
}
use recon_sync.Domain.Event.{Event}
use recon_sync.Pipeline.{
  Config, Worker, Pipeline, submit, get_worker, set_worker, set_defaults, new_pipeline, put, idle,
  flush, take_event, when_running, receive, tick, cancelled, close, Step, submits, receives, ticks,
  cancels, closes, Reach, here, next,
}
use recon_sync.Pipeline.Grouping.{OneTenant, gone, flush_lem}
use recon_sync.Pipeline.Conserved.{Conserved, held, Step-Conserved, new_pipeline-Conserved}
use recon_sync.Pipeline.Shutdown.{Reach-Stuck}
use recon_sync.Pipeline.Workers.{
  Emptied, set_worker-All, set_worker-length, get_worker-set_worker, EndedBelow, EndedBelow-Ended,
  Ended-held, workers_of-Emptied,
}

module _ (handle : ℕ → Text → List Event → Bool) where
  -- What follows of a worker's step: nothing, if no such worker runs, or what the worker does.
  when_running-cases :
      (P : Pipeline → Type 0) (p : Pipeline) (n : ℕ) (act : Worker → Pipeline)
      → (((w : Worker) → get_worker n p.hands ≡ some w → w.running ≡ false) → P p)
      → ((w : Worker) → get_worker n p.hands ≡ some w → P (act w))
      → P (when_running handle p act (get_worker n p.hands))
  when_running-cases P p n act stays acts = elim (Option-cases (get_worker n p.hands)) [
    | inl e ↦ rw e (stays (λ w f. absurd (ground (arith, e, f))))
    | inr (w, e) ↦ rw e (
        if_cases P w.running (act w) p (λ f. acts w e)
          (λ f. stays (λ v g. ground (arith, e, f, g))))
  ]

  put-flush_hands :
      (p : Pipeline) (n : ℕ) (v : Worker) (batch : List Event)
      → All OneTenant p.handled
      → (put handle n v (flush handle p batch)).hands ≡ set_worker n v p.hands
  put-flush_hands p n v batch called = ap (set_worker n v) (flush_lem handle p batch called).0.3

  put-flush-Emptied :
      (p : Pipeline) (n : ℕ) (v : Worker) (batch : List Event)
      → All OneTenant p.handled
      → All Emptied p.hands
      → Emptied v
      → All Emptied (put handle n v (flush handle p batch)).hands
  put-flush-Emptied p n v batch called h e =
      subst (All Emptied) (sym (put-flush_hands p n v batch called))
        (set_worker-All Emptied n v p.hands h e)

  take_event-Emptied :
      (p : Pipeline) (n : ℕ) (w : Worker) (events : List Event)
      → All OneTenant p.handled
      → All Emptied p.hands
      → All Emptied (take_event handle n w events p).hands
  unfolding take_event
  take_event-Emptied p n w [] called h =
      let ended : Worker = record { batch = []; running = false } in
      if_cases (λ (x : Pipeline). All Emptied x.hands) p.closed
        (put handle n ended (flush handle p w.batch)) p
        (λ f. put-flush-Emptied p n ended w.batch called h (λ e. refl)) (λ f. h)
  take_event-Emptied p n w (ev ∷ rest) called h =
      let q : Pipeline = record p { ingest = rest } in
      let batch = w.batch ++ ev ∷ [] in
      let kept : Worker = record { batch = batch; running = true } in
      if_cases (λ (x : Pipeline). All Emptied x.hands) (leb p.cfg.batch_size (length batch))
        (put handle n idle (flush handle q batch)) (put handle n kept q)
        (λ f. put-flush-Emptied q n idle batch called h (λ e. absurd (cc)))
        (λ f. set_worker-All Emptied n kept p.hands h (λ e. absurd (cc)))

  submit-hands : (p : Pipeline) (ev : Event) → (submit p ev).0.hands ≡ p.hands
  unfolding submit
  submit-hands p ev = ground arith

  Step-Emptied :
      {p q : Pipeline} → Conserved p → All Emptied p.hands → Step handle p q → All Emptied q.hands
  unfolding submit receive tick cancelled close
  Step-Emptied {p} c h (submits ev) = subst (All Emptied) (sym (submit-hands p ev)) h
  Step-Emptied {p} c h (receives n) =
      when_running-cases (λ x. All Emptied x.hands) p n (λ w. take_event handle n w p.ingest p)
        (λ f. h) (λ w at. take_event-Emptied p n w p.ingest c.2 h)
  Step-Emptied {p} c h (ticks n) =
      when_running-cases (λ x. All Emptied x.hands) p n
        (λ w. put handle n idle (flush handle p w.batch)) (λ f. h)
        (λ w at. put-flush-Emptied p n idle w.batch c.2 h (λ e. absurd (cc)))
  Step-Emptied {p} c h (cancels n) =
      let ended : Worker = record { batch = []; running = false } in
      when_running-cases (λ x. All Emptied x.hands) p n
        (λ w. put handle n ended (flush handle p w.batch)) (λ f. h)
        (λ w at. put-flush-Emptied p n ended w.batch c.2 h (λ e. refl))
  Step-Emptied c h closes = h

  abbrev Kept : Pipeline → Type 0
  Kept p = Conserved p × All Emptied p.hands

  Reach-Kept : {p q : Pipeline} → Kept p → Reach handle p q → Kept q
  Reach-Kept k here = k
  Reach-Kept k (next r s) =
      let (c, h) = Reach-Kept k r in (Step-Conserved handle c s, Step-Emptied c h s)

  -- What a cancellation of one worker leaves alone.
  abbrev Untouched : Pipeline → Pipeline → Type 0
  Untouched p q =
      (q.ingest ≡ p.ingest) × (q.received ≡ p.received) × (length q.hands ≡ length p.hands)

  cancelled-Untouched : (n : ℕ) (p : Pipeline) → Conserved p → Untouched p (cancelled handle n p)
  unfolding cancelled
  cancelled-Untouched n p c =
      let ended : Worker = record { batch = []; running = false } in
      when_running-cases (Untouched p) p n (λ w. put handle n ended (flush handle p w.batch))
        (λ f. (refl, refl, refl))
        (λ w at.
          let (same, moved, calls) = flush_lem handle p w.batch c.2 in
          (
            same.1,
            same.4,
            set_worker-length n ended (flush handle p w.batch).hands ∙ ap length same.3,
          ))

  cancelled-EndedBelow :
      (n : ℕ) (p : Pipeline)
      → Conserved p
      → EndedBelow n p.hands
      → EndedBelow (suc n) (cancelled handle n p).hands
  unfolding cancelled
  cancelled-EndedBelow n p c h =
      let ended : Worker = record { batch = []; running = false } in
      when_running-cases (λ x. EndedBelow (suc n) x.hands) p n
        (λ w. put handle n ended (flush handle p w.batch))
        (λ f j w lt at. elim (Bool-cases (j == n)) [
          | inl e ↦ f w (subst (λ i. get_worker i p.hands ≡ some w) (ground (arith, e)) at)
          | inr e ↦ h j w (ground (arith, lt, e)) at
        ])
        (λ w at j v lt found.
          let moved = ap (get_worker j) (sym (put-flush_hands p n ended w.batch c.2)) ∙ found in
          elim (get_worker-set_worker j n ended v p.hands moved) [
            | inl (own, same) ↦ ap (λ (x : Worker). x.running) same
            | inr (other, there) ↦ h j v (ground (arith, lt, other)) there
          ])

  -- Each worker up to the number sees that the context is cancelled.
  abbrev pub cancel_all : ℕ → Pipeline → Pipeline
  cancel_all zero p = p
  cancel_all (suc n) p = cancelled handle n (cancel_all n p)

  cancel_all-Reach : (n : ℕ) (p : Pipeline) → Reach handle p (cancel_all n p)
  cancel_all-Reach zero p = here
  cancel_all-Reach (suc n) p = next (cancel_all-Reach n p) (cancels n)

  cancel_all_lem :
      (n : ℕ) (p : Pipeline)
      → Kept p
      → Untouched p (cancel_all n p) × EndedBelow n (cancel_all n p).hands
  cancel_all_lem zero p k = ((refl, refl, refl), λ j w lt at. absurd (omega (arith, lt)))
  cancel_all_lem (suc n) p k =
      let q = cancel_all n p in
      let c = (Reach-Kept k (cancel_all-Reach n p)).0 in
      let (same, below) = cancel_all_lem n p k in
      let (queue, count, size) = cancelled-Untouched n q c in
      ((queue ∙ same.0, count ∙ same.1, size ∙ same.2), cancelled-EndedBelow n q c below)

  -- If, in a state that a new pipeline reaches, every worker sees the context cancelled, then each
  -- hands over what it holds, and no event goes to the handler after that: whatever follows, closing
  -- included, what was in the queue stays there, and of the events ever received those that did not
  -- go to the handler are as many as the queue holds.
  pub cancel_all-Stuck :
      (procs : ℕ) (cfg : Config) {p q : Pipeline} (n : ℕ)
      → Reach handle (new_pipeline procs cfg) p
      → length p.hands ≤ n
      → Reach handle (cancel_all n p) q
      → ((later : List Event) × (q.ingest ≡ p.ingest ++ later))
        × (gone q ≡ gone p + held p.hands)
        × (q.received ≡ gone q + length q.ingest)
  unfolding new_pipeline
  cancel_all-Stuck procs cfg {p} {q} n reached size rest =
      let start : Kept (new_pipeline procs cfg) = (
        new_pipeline-Conserved handle procs cfg here,
        workers_of-Emptied (set_defaults procs cfg).workers,
      ) in
      let kept = Reach-Kept start reached in
      let ended = cancel_all n p in
      let kept' = Reach-Kept kept (cancel_all-Reach n p) in
      let (same, below) = cancel_all_lem n p kept in
      let idle_all = EndedBelow-Ended ended.hands n below (omega (arith, size, same.2)) in
      let (later, queue) = (Reach-Stuck handle idle_all rest).0 in
      let stuck = Reach-Stuck handle idle_all rest in
      let kept'' = Reach-Kept kept' rest in
      (
        (later, queue ∙ ap (λ (l : List Event). l ++ later) same.0),
        omega (
          arith,
          stuck.2,
          kept.0.0,
          kept'.0.0,
          same.1,
          ap length same.0,
          Ended-held ended.hands idle_all kept'.1,
        ),
        omega (arith, kept''.0.0, Ended-held q.hands stuck.3 kept''.1),
      )
