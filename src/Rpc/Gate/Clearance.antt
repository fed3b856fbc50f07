-- ===== src/Rpc/Gate/Clearance.antt =====
-- What it means for the transactions of a history (src/rpc.rs) to have passed a simulation.
use y_delta_crankers.Base.{
  ℕ, ltb, not, ◌≡◌, refl, ◌⊎◌, inl, inr, Bool, true, false, List, [], ◌∷◌, ◌++◌, Bool-cases,
}
use y_delta_crankers.System.Types.{
  Instruction, set_compute_unit_limit, set_compute_unit_price, Message,
}
use y_delta_crankers.System.Env.{History, simulated}
use y_delta_crankers.System.Action.{State, Key}
use y_delta_crankers.System.Inflight.{Holding}
use y_delta_crankers.Rpc
use y_delta_crankers.Rpc.Allowed.{Policy, AreSent, Allowed}

-- The instructions behind the compute-budget ones at the front.
abbrev pub strip_budget : List Instruction → List Instruction
strip_budget [] = []
strip_budget (set_compute_unit_limit n ∷ ixs) = strip_budget ixs
strip_budget (set_compute_unit_price n ∷ ixs) = strip_budget ixs
strip_budget (ix ∷ ixs) = ix ∷ ixs

-- Some simulation of these instructions has passed.
abbrev pub SimPassed : List Instruction → History → Type 0
SimPassed core [] = ⊥
SimPassed core (simulated m true ∷ h) = (strip_budget m.ixs ≡ core) ⊎ SimPassed core h
SimPassed core (e ∷ h) = SimPassed core h

-- A message whose instructions have passed a simulation.
abbrev pub Passed : Policy
Passed h m = SimPassed (strip_budget m.ixs) h

-- A policy that lets such messages be sent.
abbrev pub Lets : Policy → Type 0
Lets P = (h : History) (m : Message) → Passed h m → P h m

-- Every transaction in the history was sent after a passing simulation of its instructions.
abbrev pub AreGated : History → Type 0
AreGated h = AreSent Passed h

-- The gate holds, whatever is in flight.
abbrev pub Crashed : State → Type 0
Crashed s = AreGated s.history

-- The gate holds, and these keys are in flight.
abbrev pub Gated : List Key → State → Type 0
Gated ks s = Crashed s × Holding ks s

-- Beside the policy, these instructions have passed a simulation.
abbrev pub Cleared : Policy → List Key → List Instruction → State → Type 0
Cleared P ks ixs s = Allowed P ks s × SimPassed (strip_budget ixs) s.history

pub strip_budget-preamble :
    (rpc : Rpc.Rpc) (n : ℕ) (ixs : List Instruction)
    → strip_budget (Rpc.priority_fee_preamble rpc n ++ ixs) ≡ strip_budget ixs
unfolding Rpc.priority_fee_preamble
strip_budget-preamble rpc n ixs = elim (Bool-cases (ltb 0 rpc.priority_fee_micro_lamports)) [
  | inl e ↦ rw e
  | inr e ↦ rw e
]

-- The second branch of the handlers' test of a simulation.
pub passing : (b : Bool) → not b ≡ false → b ≡ true
passing true e = refl
passing false e = cc
