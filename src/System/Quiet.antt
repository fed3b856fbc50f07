-- ===== src/System/Quiet.antt =====
-- Invariants that only the sending of a transaction may disturb.
use y_delta_crankers.Base.{Option}
use y_delta_crankers.System.Env.{Event, sent}
use y_delta_crankers.System.Action.{State, MarketCache, record_event}

-- An event that is no send.
abbrev pub IsQuiet : Event → Type 0
IsQuiet (sent m sig confirmed) = ⊥
IsQuiet _ = Unit

-- What the reads of the chain ask of an invariant, and of what holds after a panic.
pub record Undisturbed (I X : State → Type 0) : Type 0 where
  pub quiet : (e : Event) (s : State) → IsQuiet e → I s → I (record_event e s)
  pub recached : (c : Option MarketCache) (s : State) → I s → I (record s { markets_cache = c })
  pub crash : (s : State) → I s → X s
