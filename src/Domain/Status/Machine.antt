-- ===== src/Domain/Status/Machine.antt =====
-- What the table of edges means: the states that absorb, and what a path can reach.
use recon_sync.Common.{Bool, true, false, ◌≡◌, refl, ◌⊎◌, inl, inr, ◌↔◌, subst, arith}
use recon_sync.Domain.Status.{
  Status, pending_debit, pending_unknown, completed, suspect, orphaned, reversal_pending,
  reversal_completed, reversal_failed, is_terminal, is_open, can_transition,
}

-- The edges of the state machine.
pub data Edge : Status → Status → Type 0 where
  settle_debit : Edge pending_debit completed
  doubt : Edge pending_debit pending_unknown
  expire : Edge pending_debit orphaned
  gap : Edge pending_debit suspect
  settle_unknown : Edge pending_unknown completed
  expire_unknown : Edge pending_unknown suspect
  condemn : Edge suspect orphaned
  clear : Edge suspect completed
  dispatch : Edge orphaned reversal_pending
  settle_late : Edge orphaned completed
  question : Edge orphaned suspect
  confirm : Edge reversal_pending reversal_completed
  exhaust : Edge reversal_pending reversal_failed
  replay : Edge reversal_failed reversal_pending

pub data Reach : Status → Status → Type 0 where
  here : {s : Status} → Reach s s
  step : {s t u : Status} → Reach s t → can_transition t u ≡ true → Reach s u

ruleset edges = (
  settle_debit, doubt, expire, gap, settle_unknown, expire_unknown, condemn, clear, dispatch,
  settle_late, question, confirm, exhaust, replay,
)

can_transition-Edge : (s t : Status) → can_transition s t ≡ true → Edge s t
unfolding can_transition
can_transition-Edge pending_debit completed h = settle_debit
can_transition-Edge s t h = grind (arith, edges)

pub Edge-can_transition : {s t : Status} → Edge s t → can_transition s t ≡ true
unfolding can_transition
Edge-can_transition settle_debit = refl
Edge-can_transition doubt = refl
Edge-can_transition expire = refl
Edge-can_transition gap = refl
Edge-can_transition settle_unknown = refl
Edge-can_transition expire_unknown = refl
Edge-can_transition condemn = refl
Edge-can_transition clear = refl
Edge-can_transition dispatch = refl
Edge-can_transition settle_late = refl
Edge-can_transition question = refl
Edge-can_transition confirm = refl
Edge-can_transition exhaust = refl
Edge-can_transition replay = refl

-- The table allows exactly the fourteen edges of the diagram.
pub can_transition_iff : (s t : Status) → (can_transition s t ≡ true) ↔ Edge s t
can_transition_iff s t = (can_transition-Edge s t, λ e. Edge-can_transition e)

-- A reversal has been sent out.
abbrev pub is_dispatched : Status → Bool
is_dispatched reversal_pending = true
is_dispatched reversal_completed = true
is_dispatched reversal_failed = true
is_dispatched _ = false

dispatched_step :
    (s t : Status) → can_transition s t ≡ true → is_dispatched s ≡ true → is_dispatched t ≡ true
unfolding can_transition
dispatched_step s t h d = ground arith

-- Once a reversal has been sent out, no sequence of transitions makes the transaction completed,
-- suspect or orphaned again: it stays in one of the three reversal states.
pub Reach-is_dispatched :
    {s t : Status} → Reach s t → is_dispatched s ≡ true → is_dispatched t ≡ true
Reach-is_dispatched here d = d
Reach-is_dispatched (step {t = t} {u = u} r h) d = dispatched_step t u h (Reach-is_dispatched r d)

terminal_stuck : (s t : Status) → is_terminal s ≡ true → can_transition s t ≡ true → ⊥
unfolding can_transition is_terminal
terminal_stuck s t h c = ground arith

-- A terminal status, which every unrecognised one is, absorbs: nothing else is reachable from it.
pub Reach-is_terminal : {s t : Status} → Reach s t → is_terminal s ≡ true → t ≡ s
Reach-is_terminal here h = refl
Reach-is_terminal (step {s = s} {t = t} {u = u} r c) h =
    absurd (terminal_stuck s u h (rw (← Reach-is_terminal r h) c))

open_step : (s t : Status) → can_transition s t ≡ true → is_open t ≡ true → is_open s ≡ true
unfolding can_transition is_open
open_step s t h o = ground arith

-- A transaction that the scheduler has stopped watching is never watched again.
pub Reach-is_open : {s t : Status} → Reach s t → is_open t ≡ true → is_open s ≡ true
Reach-is_open here o = o
Reach-is_open (step {t = t} {u = u} r h) o = Reach-is_open r (open_step t u h o)

into_dispatched :
    (s t : Status)
    → can_transition s t ≡ true
    → is_dispatched t ≡ true
    → (s ≡ orphaned) ⊎ (is_dispatched s ≡ true)
unfolding can_transition
into_dispatched s t h d = ground arith

-- Every path from a status before a reversal is sent out to one after it goes through `orphaned`.
pub Reach-orphaned :
    {s t : Status}
    → Reach s t
    → is_dispatched s ≡ false
    → is_dispatched t ≡ true
    → Reach s orphaned × Reach orphaned t
Reach-orphaned here a b = absurd (cc)
Reach-orphaned (step {s = s} {t = t} {u = u} r h) a b = elim (into_dispatched t u h b) [
  | inl e ↦ (subst (λ x. Reach s x) e r, step here (subst (λ x. can_transition x u ≡ true) e h))
  | inr d ↦ let (p, q) = Reach-orphaned r a d in (p, step q h)
]

-- A status never moves to itself, so a replayed event cannot look applied.
pub can_transition_irrefl : (s : Status) → can_transition s s ≡ false
unfolding can_transition
can_transition_irrefl pending_debit = refl
can_transition_irrefl s = ground arith
