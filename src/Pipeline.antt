-- ===== src/Pipeline.antt =====
-- internal/pipeline/pipeline.go: the bounded queue between ingest and the handler. The channel is
-- a list, each worker has its batch in hand, and what producers, workers, the ticker and a
-- shutdown do is a sequence of steps. The handler answers for each call, by its number; the
-- observer is there, and what it is told is kept, newest first. Counters do not wrap.
pub mod Grouping
pub mod Conserved
pub mod Drain
pub mod Shutdown
pub mod Workers
pub mod Cancelled
use recon_sync.Common.{
  ℕ, zero, suc, ◌+◌, ◌-◌, ◌*◌, Bool, true, false, not, Option, none, some, List, [], ◌∷◌, ◌++◌,
  Text, Dict, lookup, insert, length, ltb, leb, ◌==◌, if◌then◌else◌, text_eq,
}
use recon_sync.Domain.Event.{Event, event_tenant_id}

abbrev pub default_buffer_size : ℕ
default_buffer_size = 10_000

abbrev pub default_batch_size : ℕ
default_batch_size = 100

-- Nanoseconds.
abbrev pub default_flush_interval : ℕ
default_flush_interval = 200_000_000

-- A number that is 0 stands for any that is not positive.
pub record Config : Type 0 where
  pub buffer_size : ℕ
  pub workers : ℕ
  pub batch_size : ℕ
  pub flush_interval : ℕ

abbrev or_default : ℕ → ℕ → ℕ
or_default n default = if n == 0 then default else n

unfoldable pub set_defaults : ℕ → Config → Config
set_defaults procs c = record {
  buffer_size = or_default c.buffer_size default_buffer_size;
  workers = or_default c.workers (procs * 4);
  batch_size = or_default c.batch_size default_batch_size;
  flush_interval = or_default c.flush_interval default_flush_interval;
}

-- What an `Observer` is told.
pub data Observation : Type 0 where
  accepted dropped : Text → Observation
  batch_failed : Text → ℕ → Observation

-- A worker: the batch in its hand, and whether it still runs.
pub record Worker : Type 0 where
  pub batch : List Event
  pub running : Bool

abbrev pub idle : Worker
idle = record { batch = []; running = true }

pub record Pipeline : Type 0 where
  pub cfg : Config
  pub ingest : List Event
  pub closed : Bool
  pub hands : List Worker
  pub received : ℕ
  pub dropped_events : ℕ
  pub flushed : ℕ
  pub batches : ℕ
  pub handler_errors : ℕ
  pub observed : List Observation
  pub handled : List (Text × List Event)

abbrev workers_of : ℕ → List Worker
workers_of zero = []
workers_of (suc n) = idle ∷ workers_of n

-- `New` and `Start`.
unfoldable pub new_pipeline : ℕ → Config → Pipeline
unfolding set_defaults
new_pipeline procs c = record {
  cfg = set_defaults procs c;
  ingest = [];
  closed = false;
  hands = workers_of (set_defaults procs c).workers;
  received = 0;
  dropped_events = 0;
  flushed = 0;
  batches = 0;
  handler_errors = 0;
  observed = [];
  handled = [];
}

-- `nil`, `ErrBackpressure` and `ErrClosed`.
pub data Submitted : Type 0 where
  submitted backpressure refused : Submitted

unfoldable pub submit : Pipeline → Event → Pipeline × Submitted
submit p ev =
    if p.closed
    then (p, refused)
    else if ltb (length p.ingest) p.cfg.buffer_size
    then (
      record p {
        ingest = p.ingest ++ ev ∷ [];
        received = p.received + 1;
        observed = accepted (event_tenant_id ev) ∷ p.observed;
      },
      submitted,
    )
    else (
      record p {
        dropped_events = p.dropped_events + 1;
        observed = dropped (event_tenant_id ev) ∷ p.observed;
      },
      backpressure,
    )

abbrev pub Groups : Type 0
Groups = Dict Text (List Event)

abbrev pub group_of : Option (List Event) → List Event
group_of none = []
group_of (some events) = events

unfoldable pub group_loop : List Event → Groups → Groups
group_loop [] groups = groups
group_loop (ev ∷ batch) groups =
    let id = event_tenant_id ev in
    group_loop batch (insert id (group_of (lookup id groups) ++ ev ∷ []) groups)

abbrev pub get_worker : ℕ → List Worker → Option Worker
get_worker n [] = none
get_worker n (w ∷ ws) = if n == 0 then some w else get_worker (n - 1) ws

abbrev pub set_worker : ℕ → Worker → List Worker → List Worker
set_worker n v [] = []
set_worker n v (w ∷ ws) = if n == 0 then v ∷ ws else w ∷ set_worker (n - 1) v ws

unfoldable pub close : Pipeline → Pipeline
close p = record p { closed = true }

-- `Handle`, for the number of the call: whether it succeeds.
module _ (handle : ℕ → Text → List Event → Bool) where
  unfoldable pub flush_group : Pipeline → Text → List Event → Pipeline
  flush_group p tenant events =
      let q : Pipeline = record p {
        batches = p.batches + 1;
        handled = (tenant, events) ∷ p.handled;
      } in
      if not (handle p.batches tenant events)
      then record q {
        handler_errors = p.handler_errors + 1;
        observed = batch_failed tenant (length events) ∷ p.observed;
      }
      else record q { flushed = p.flushed + length events }

  unfoldable pub flush_groups : Groups → Pipeline → Pipeline
  unfolding flush_group
  flush_groups [] p = p
  flush_groups ((tenant, events) ∷ groups) p = flush_groups groups (flush_group p tenant events)

  unfoldable pub flush : Pipeline → List Event → Pipeline
  unfolding flush_groups group_loop
  flush p batch = if length batch == 0 then p else flush_groups (group_loop batch []) p

  abbrev pub put : ℕ → Worker → Pipeline → Pipeline
  put n w p = record p { hands = set_worker n w p.hands }

  -- The arms of the `select` of a worker. Nothing happens where it would block.
  unfoldable pub take_event : ℕ → Worker → List Event → Pipeline → Pipeline
  unfolding flush
  take_event n w [] p =
      if p.closed then put n (record { batch = []; running = false }) (flush p w.batch) else p
  take_event n w (ev ∷ rest) p =
      let batch = w.batch ++ ev ∷ [] in
      let q : Pipeline = record p { ingest = rest } in
      if leb p.cfg.batch_size (length batch)
      then put n idle (flush q batch)
      else put n (record { batch = batch; running = true }) q

  abbrev when_running : Pipeline → (Worker → Pipeline) → Option Worker → Pipeline
  when_running p act none = p
  when_running p act (some w) = if w.running then act w else p

  unfoldable pub receive : ℕ → Pipeline → Pipeline
  unfolding take_event
  receive n p = when_running p (λ w. take_event n w p.ingest p) (get_worker n p.hands)

  unfoldable pub tick : ℕ → Pipeline → Pipeline
  unfolding flush
  tick n p = when_running p (λ w. put n idle (flush p w.batch)) (get_worker n p.hands)

  unfoldable pub cancelled : ℕ → Pipeline → Pipeline
  unfolding flush
  cancelled n p =
      when_running p (λ w. put n (record { batch = []; running = false }) (flush p w.batch))
        (get_worker n p.hands)

  -- What may happen next: a producer submits, a worker takes an event or finds the channel closed,
  -- its ticker fires, it sees the context cancelled, the pipeline is closed.
  pub data Step (p : Pipeline) : Pipeline → Type 0 where
    submits : (ev : Event) → Step p (submit p ev).0
    receives : (n : ℕ) → Step p (receive n p)
    ticks : (n : ℕ) → Step p (tick n p)
    cancels : (n : ℕ) → Step p (cancelled n p)
    closes : Step p (close p)

  pub data Reach (p : Pipeline) : Pipeline → Type 0 where
    here : Reach p p
    next : {q r : Pipeline} → Reach p q → Step q r → Reach p r
