-- ===== src/Rpc/Retry.antt =====
-- The retry loop of src/rpc.rs: how often it sends, and what a returned signature means.
use y_delta_crankers.Base.{
  ℕ, suc, ◌+◌, ◌≤◌, ◌≡◌, refl, sym, subst, Bool, List, [], ◌∷◌, none, arith,
}
use y_delta_crankers.System.Types.{Signature, Keypair, Message, Instruction, Lut}
use y_delta_crankers.System.Env.{
  Env, Event, History, sent, simulated, asked_account, asked_accounts, asked_program_accounts,
  asked_blockhash, asked_statuses, asked_balance, asked_time, asked_instant, asked_stop,
  asked_gateway, asked_slot, asked_queue, asked_gateways, counted, slept,
}
use y_delta_crankers.System.Action.{State, record_event}
use y_delta_crankers.System.Rules.{After}
use y_delta_crankers.Rpc
use y_delta_crankers.System.Quiet.{IsQuiet}
use y_delta_crankers.Rpc.Sending.{
  SendRules, send_attempts-Fits, legacy_transaction-Builds, v0_transaction-Builds,
}

-- The transactions sent so far.
abbrev pub sends : History → ℕ
sends [] = 0
sends (sent m sig confirmed ∷ h) = suc (sends h)
sends (e ∷ h) = sends h

-- At most `limit`, and room for so many more.
abbrev pub AtMost : ℕ → State → Type 0
AtMost limit s = sends s.history ≤ limit

abbrev pub Room : ℕ → ℕ → State → Type 0
Room limit k s = k + sends s.history ≤ limit

pub quiet-sends : (e : Event) (h : History) → IsQuiet e → sends (e ∷ h) ≡ sends h
quiet-sends (asked_account k) h q = refl
quiet-sends (asked_accounts l) h q = refl
quiet-sends (asked_program_accounts l) h q = refl
quiet-sends asked_blockhash h q = refl
quiet-sends (asked_statuses l) h q = refl
quiet-sends (asked_balance k) h q = refl
quiet-sends asked_time h q = refl
quiet-sends asked_instant h q = refl
quiet-sends asked_stop h q = refl
quiet-sends (asked_gateway l n) h q = refl
quiet-sends asked_slot h q = refl
quiet-sends (asked_queue k) h q = refl
quiet-sends (asked_gateways n) h q = refl
quiet-sends (simulated m b) h q = refl
quiet-sends (counted l b) h q = refl
quiet-sends (slept n) h q = refl
quiet-sends (sent m sig confirmed) h q = absurd q

module _ (limit : ℕ) where
  pub quiet-Room :
      (k : ℕ) (e : Event) (s : State) → IsQuiet e → Room limit k s → Room limit k (record_event e s)
  quiet-Room k e s q h = subst (λ n. k + n ≤ limit) (sym (quiet-sends e s.history q)) h

  pub Room-AtMost : (k : ℕ) (s : State) → Room limit k s → AtMost limit s
  Room-AtMost k s h = omega arith

  pub sent-Room :
      (k : ℕ) (m : Message) (sig : Signature) (confirmed : Bool) (s : State)
      → Unit {0}
      → Room limit (suc k) s
      → Room limit k (record_event (sent m sig confirmed) s)
  sent-Room k m sig confirmed s u h = omega arith

  abbrev pub room_rules : SendRules
  room_rules = record {
    after = AtMost limit;
    crashed = AtMost limit;
    room = Room limit;
    allowed = λ _. Unit {0};
    quiet = quiet-Room;
    weak = Room-AtMost;
    crash = Room-AtMost;
    spend = sent-Room;
  }

-- A send of a legacy transaction ends, and whatever its outcome (a signature, an error, a panic) at
-- most three transactions have been handed to the cluster in it.
pub send_with_retry-AtMost :
    (env : Env) (rpc : Rpc.Rpc) (ixs : List Instruction) (signers : List Keypair) (payer : Keypair)
    (s : State)
    → After
        (AtMost (3 + sends s.history))
        (AtMost (3 + sends s.history))
        (λ _. AtMost (3 + sends s.history))
        (Rpc.send_with_retry env rpc ixs signers payer s)
unfolding Rpc.send_with_retry
send_with_retry-AtMost env rpc ixs signers payer s =
    (send_attempts-Fits env rpc (room_rules (3 + sends s.history)) _ 3 none λ n.
        legacy_transaction-Builds env rpc (room_rules (3 + sends s.history)) _ signers payer n
          tt).run
      s (omega arith)

-- A send of a versioned transaction ends, and whatever its outcome (a signature, an error, a panic)
-- at most three transactions have been handed to the cluster in it.
pub send_v0_with_retry-AtMost :
    (env : Env) (rpc : Rpc.Rpc) (ixs : List Instruction) (luts : List Lut) (signers : List Keypair)
    (payer : Keypair) (s : State)
    → After
        (AtMost (3 + sends s.history))
        (AtMost (3 + sends s.history))
        (λ _. AtMost (3 + sends s.history))
        (Rpc.send_v0_with_retry env rpc ixs luts signers payer s)
unfolding Rpc.send_v0_with_retry
send_v0_with_retry-AtMost env rpc ixs luts signers payer s =
    (send_attempts-Fits env rpc (room_rules (3 + sends s.history)) _ 3 none λ n.
        v0_transaction-Builds env rpc (room_rules (3 + sends s.history)) _ luts signers payer n
          tt).run
      s (omega arith)
