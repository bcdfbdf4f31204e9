-- ===== src/Tests/Draining.antt =====
-- The properties of the ingest pipeline.
use recon_sync.Common.{
  ℕ, ◌≡◌, refl, some, none, List, [], ◌∷◌, ◌++◌, ◌+◌, length, arith, Text, ascii, Bool, ltb,
  text_eq,
}
use recon_sync.Domain.Event.{Event, event_tenant_id}
use recon_sync.Pipeline.{
  Config, Pipeline, new_pipeline, submit, receive, tick, close, submits, receives, ticks, closes,
  Reach, here, next, set_defaults, idle, take_event,
}
use recon_sync.Pipeline.Conserved.{Conserved, held, new_pipeline-Conserved}
use recon_sync.Pipeline.Drain.{Drained, receive_all, receive_all-Drained}
use recon_sync.Pipeline.Grouping.{gone}
use recon_sync.Pipeline.Cancelled.{cancel_all, cancel_all-Stuck}
use recon_sync.Tests.Data.{debit, credit_of}

-- The second call of the handler fails.
abbrev handle : ℕ → Text → List Event → Bool
handle n tenant events = ltb n 1

abbrev small : Config
small = record { buffer_size = 2; workers = 1; batch_size = 2; flush_interval = 5 }

abbrev opening : Event
opening = record { debit = some debit; credit = none }

abbrev paying : Event
paying = record { debit = none; credit = some (credit_of 500 (ascii "c1")) }

-- Two events come in, a third is refused.
abbrev filled : Pipeline
filled = (submit (submit (submit (new_pipeline 4 small) opening).0 paying).0 opening).0

abbrev filled_up : Reach handle (new_pipeline 4 small) filled
filled_up = next (next (next here (submits opening)) (submits paying)) (submits opening)

new_pipeline-Conserved_example : Conserved (tick handle 0 (receive handle 0 filled))
new_pipeline-Conserved_example =
    new_pipeline-Conserved handle 4 small (next (next filled_up (receives 0)) (ticks 0))

abbrev shut : Pipeline
shut = close filled

receive_all-Drained_example :
    Drained handle 0 shut 2 (receive_all handle 0 (opening ∷ paying ∷ []) shut)
unfolding new_pipeline set_defaults submit close event_tenant_id
receive_all-Drained_example =
    receive_all-Drained handle 0 (opening ∷ paying ∷ []) shut idle (refl, refl, refl, refl, tt)

-- The only worker holds the first event, the second is in the queue, and the context is cancelled.
abbrev working : Pipeline
working = receive handle 0 filled

abbrev abandoned : Pipeline
abandoned = receive handle 0 (close (cancel_all handle 1 working))

cancel_all-Stuck_example :
    ((later : List Event) × (abandoned.ingest ≡ working.ingest ++ later))
    × (gone abandoned ≡ gone working + held working.hands)
    × (abandoned.received ≡ gone abandoned + length abandoned.ingest)
unfolding new_pipeline set_defaults submit receive take_event event_tenant_id
cancel_all-Stuck_example =
    cancel_all-Stuck handle 4 small {p = working} 1 (next filled_up (receives 0)) (omega arith)
      (next (next here closes) (receives 0))
