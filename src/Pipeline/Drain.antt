-- ===== src/Pipeline/Drain.antt =====
-- What a worker does with the queue once the pipeline is closed.
use recon_sync.Common.{
  ℕ, ◌+◌, ◌-◌, Bool, true, false, ◌≡◌, refl, sym, ap, subst, ◌∙◌, inl, inr, some, List, [], ◌∷◌,
  ◌++◌, Text, length, length-append, All, Bool-cases, arith, leb, ◌==◌, if_cases,
}
use recon_sync.Domain.Event.{Event}
use recon_sync.Pipeline.{
  Worker, Pipeline, get_worker, set_worker, put, idle, flush, take_event, receive,
}
use recon_sync.Pipeline.Grouping.{OneTenant, gone, flush_lem}

set_worker-get :
    (n : ℕ) (v w : Worker) (ws : List Worker)
    → get_worker n ws ≡ some w
    → get_worker n (set_worker n v ws) ≡ some v
set_worker-get n v w [] h = absurd (cc)
set_worker-get n v w (x ∷ ws) h = elim (Bool-cases (n == 0)) [
  | inl e ↦ rw e (rw e refl)
  | inr e ↦ rw e (rw e (set_worker-get (n - 1) v w ws (ground arith)))
]

module _ (handle : ℕ → Text → List Event → Bool) (n : ℕ) where
  -- A receive for each event and one more.
  abbrev pub receive_all : List Event → Pipeline → Pipeline
  receive_all [] p = receive handle n p
  receive_all (ev ∷ events) p = receive_all events (receive handle n p)

  -- The worker runs with the batch in its hand, the channel is closed with the events in it, and
  -- each call of the handler was for one tenant.
  abbrev pub Draining : List Event → Worker → Pipeline → Type 0
  Draining events w p =
      (p.ingest ≡ events)
      × (p.closed ≡ true)
      × (get_worker n p.hands ≡ some w)
      × (w.running ≡ true)
      × All OneTenant p.handled

  receive_running :
      (p : Pipeline) (w : Worker)
      → get_worker n p.hands ≡ some w
      → w.running ≡ true
      → receive handle n p ≡ take_event handle n w p.ingest p
  unfolding receive
  receive_running p w at run = rw at (
      if_cases (λ (x : Pipeline). x ≡ take_event handle n w p.ingest p) w.running
        (take_event handle n w p.ingest p) p (λ e. refl) (λ e. absurd (cc)))

  -- What a flush of the worker's batch leaves, with another worker in its place.
  put-flush :
      (p : Pipeline) (w v : Worker) (batch : List Event)
      → get_worker n p.hands ≡ some w
      → All OneTenant p.handled
      → ((put handle n v (flush handle p batch)).ingest ≡ p.ingest)
        × ((put handle n v (flush handle p batch)).closed ≡ p.closed)
        × (get_worker n (put handle n v (flush handle p batch)).hands ≡ some v)
        × All OneTenant (put handle n v (flush handle p batch)).handled
        × (gone (put handle n v (flush handle p batch)) ≡ gone p + length batch)
  put-flush p w v batch at called =
      let (same, moved, calls) = flush_lem handle p batch called in
      let (cfg, ingest, closed, hands, received, dropped) = same in
      (
        ingest,
        closed,
        set_worker-get n v w (flush handle p batch).hands (ap (get_worker n) hands ∙ at),
        calls,
        moved,
      )

  -- One receive takes the first event.
  take_event-Draining :
      (p : Pipeline) (w : Worker) (ev : Event) (events : List Event)
      → Draining (ev ∷ events) w p
      → (v : Worker) × Draining events v (take_event handle n w (ev ∷ events) p)
        × (gone (take_event handle n w (ev ∷ events) p) + length v.batch
            ≡ gone p + length w.batch + 1)
  unfolding take_event
  take_event-Draining p w ev events (queue, closed, at, run, called) =
      let q : Pipeline = record p { ingest = events } in
      let batch = w.batch ++ ev ∷ [] in
      let longer = length-append w.batch (ev ∷ []) in
      elim (Bool-cases (leb p.cfg.batch_size (length batch))) [
        | inl full ↦
            let (ingest, shut, mine, calls, moved) = put-flush q w idle batch at called in
            rw (full, take_event)
              (idle, (ingest, shut ∙ closed, mine, refl, calls), omega (arith, moved, longer))
        | inr room ↦
            let kept : Worker = record { batch = batch; running = true } in
            rw (room, take_event)
              (
                kept,
                (refl, closed, set_worker-get n kept w p.hands at, refl, called),
                omega (arith, longer),
              )
      ]

  abbrev pub ended : Worker
  ended = record { batch = []; running = false }

  -- The queue is empty, the worker has ended with nothing in its hand, each call of the handler was
  -- for one tenant, and so many more events than before went to it.
  abbrev pub Drained : Pipeline → ℕ → Pipeline → Type 0
  Drained p more q =
      (q.ingest ≡ [])
      × (get_worker n q.hands ≡ some ended)
      × All OneTenant q.handled
      × (gone q ≡ gone p + more)

  -- The worker that finds the channel closed and empty flushes what it holds.
  take_event-Drained :
      (p : Pipeline) (w : Worker)
      → Draining [] w p
      → Drained p (length w.batch) (take_event handle n w [] p)
  unfolding take_event
  take_event-Drained p w (queue, closed, at, run, called) =
      let (ingest, shut, mine, calls, moved) = put-flush p w ended w.batch at called in
      if_cases (Drained p (length w.batch)) p.closed (put handle n ended (flush handle p w.batch)) p
        (λ e. (ingest ∙ queue, mine, calls, moved)) (λ e. absurd (cc))

  receive_is :
      (p : Pipeline) (w : Worker) (events : List Event)
      → Draining events w p
      → receive handle n p ≡ take_event handle n w events p
  receive_is p w events (queue, closed, at, run, called) =
      receive_running p w at run ∙ ap (λ (l : List Event). take_event handle n w l p) queue

  -- If the pipeline is closed while a worker runs, then that worker alone empties the queue in as
  -- many receives as it has events, and with one more it hands over what it still holds and ends:
  -- every event of the queue and of its hand has then gone to the handler.
  pub receive_all-Drained :
      (events : List Event) (p : Pipeline) (w : Worker)
      → Draining events w p
      → Drained p (length w.batch + length events) (receive_all events p)
  receive_all-Drained [] p w d =
      let (ingest, mine, calls, moved) = take_event-Drained p w d in
      subst (Drained p (length w.batch + 0)) (sym (receive_is p w [] d))
        (ingest, mine, calls, omega (arith, moved))
  receive_all-Drained (ev ∷ events) p w d =
      let (v, d', moved) =
        subst
          (λ (q : Pipeline).
            (v : Worker) × Draining events v q
            × (gone q + length v.batch ≡ gone p + length w.batch + 1))
          (sym (receive_is p w (ev ∷ events) d)) (take_event-Draining p w ev events d) in
      let (ingest, mine, calls, total) = receive_all-Drained events (receive handle n p) v d' in
      (ingest, mine, calls, omega (arith, moved, total))
