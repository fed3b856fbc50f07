-- ===== src/Rpc/Landed.antt =====
-- The check of src/rpc.rs that a previous attempt has landed: a cluster that knows what it was sent
-- is not sent another transaction.
use y_delta_crankers.Base.{
  ℕ, zero, suc, ◌+◌, ◌≡◌, refl, true, List, [], ◌∷◌, Option, none, some, arith,
}
use y_delta_crankers.System.Types.{Signature, Keypair, Message, Instruction, Lut}
use y_delta_crankers.System.Env.{Env, History}
use y_delta_crankers.System.Action.{State, Action, pure, panic}
use y_delta_crankers.System.Rules.{
  After, Triple, bind-Triple, known-Triple, call-Triple, pure-Keeps, mono-Triple, Keeps-under,
}
use y_delta_crankers.Rpc
use y_delta_crankers.Rpc.Sending.{
  SendRules, Fits, Builds, send_once-Fits, stopped-Keeps, unless_stopped-Fits,
  legacy_transaction-Builds, v0_transaction-Builds,
}
use y_delta_crankers.Rpc.Retry.{sends, AtMost, room_rules}

-- The cluster has a status, be it of a failed transaction, for every signature it is asked about.
abbrev pub KnowsAll : Env → Rpc.Rpc → Type 0
KnowsAll env rpc =
    (h : History) (sig : Signature)
    → Rpc.is_known env rpc (env.get_signature_statuses h (sig ∷ [])) ≡ true

module _ (env : Env) (rpc : Rpc.Rpc) (knows : KnowsAll env rpc) (rules : SendRules) where
  previous_landed-Triple :
      (prev : Signature)
      → Triple rules.after rules.crashed
          (rules.room 0)
          (Rpc.previous_landed env rpc (some prev))
          (λ landed s. rules.room 0 s × (landed ≡ some prev))
  unfolding Rpc.previous_landed pure
  previous_landed-Triple prev =
      bind-Triple (λ r s. rules.room 0 s × (Rpc.is_known env rpc r ≡ true))
        (call-Triple _ _ (λ s i. (rules.quiet 0 _ s tt i, knows s.history prev)))
        λ r. known-Triple λ k. record { run = λ s i. (i, rw k refl) }

  landed-Fits :
      (send : Action Signature) (prev : Signature) (landed : Option Signature)
      → landed ≡ some prev
      → Fits env rpc rules 0 (Rpc.unless_landed env rpc send landed)
  landed-Fits send prev none e = cc e
  landed-Fits send prev (some sig) e = mono-Triple (rules.weak 0) (pure-Keeps _)

  unless_first-Fits :
      (send : Action Signature) (landed : Option Signature)
      → landed ≡ none
      → Fits env rpc rules 1 send
      → Fits env rpc rules 1 (Rpc.unless_landed env rpc send landed)
  unless_first-Fits send none e h = h
  unless_first-Fits send (some sig) e h = cc e

  module _ (build : ℕ → Action (Message × Signature)) where
    -- With a signature of an attempt, nothing more is sent.
    again-Fits :
        (left : ℕ) (prev : Signature)
        → Fits env rpc rules 0 (Rpc.send_attempts env rpc build left (some prev))
    unfolding Rpc.send_attempts panic
    again-Fits zero prev = record { run = λ s j. rules.crash 0 s j }
    again-Fits (suc left) prev =
        bind-Triple (λ _. rules.room 0) (Keeps-under (rules.weak 0) (stopped-Keeps env rpc rules 0))
          λ stop. unless_stopped-Fits env rpc rules 0 _ stop (
            bind-Triple _ (previous_landed-Triple prev)
              λ landed. known-Triple λ e. landed-Fits _ prev landed e)

    once-Fits :
        (left : ℕ)
        → ((n : ℕ) → Builds env rpc rules (build n))
        → Fits env rpc rules 1 (Rpc.send_attempts env rpc build (suc left) none)
    unfolding Rpc.send_attempts Rpc.previous_landed pure
    once-Fits left b =
        bind-Triple (λ _. rules.room 1) (Keeps-under (rules.weak 1) (stopped-Keeps env rpc rules 1))
          λ stop. unless_stopped-Fits env rpc rules 1 _ stop (
            bind-Triple (λ landed s. rules.room 1 s × (landed ≡ none))
              (record { run = λ s i. (i, refl) })
              λ landed. known-Triple λ e.
                unless_first-Fits _ landed e
                  (send_once-Fits env rpc rules build _ 0 _ b (again-Fits left)))

-- If the cluster has a status, be it of a failed transaction, for every signature that it is asked
-- about, then a send of a legacy transaction and a send of a versioned one each hand at most one
-- transaction to the cluster, however often the cluster refuses what it is sent, and whatever the
-- outcome (a signature, an error, a panic).
pub send_with_retry-once :
    (env : Env) (rpc : Rpc.Rpc) (ixs : List Instruction) (luts : List Lut) (signers : List Keypair)
    (payer : Keypair) (s : State)
    → KnowsAll env rpc
    → After
        (AtMost (1 + sends s.history))
        (AtMost (1 + sends s.history))
        (λ _. AtMost (1 + sends s.history))
        (Rpc.send_with_retry env rpc ixs signers payer s)
      × After
          (AtMost (1 + sends s.history))
          (AtMost (1 + sends s.history))
          (λ _. AtMost (1 + sends s.history))
          (Rpc.send_v0_with_retry env rpc ixs luts signers payer s)
unfolding Rpc.send_with_retry Rpc.send_v0_with_retry
send_with_retry-once env rpc ixs luts signers payer s knows = (
  (once-Fits env rpc knows (room_rules (1 + sends s.history)) _ 2 λ n.
        legacy_transaction-Builds env rpc (room_rules (1 + sends s.history)) _ signers payer n
          tt).run
      s (omega arith),
  (once-Fits env rpc knows (room_rules (1 + sends s.history)) _ 2 λ n.
        v0_transaction-Builds env rpc (room_rules (1 + sends s.history)) _ luts signers payer n
          tt).run
      s (omega arith),
)
