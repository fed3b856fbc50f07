-- ===== src/Rpc/Sending.antt =====
-- The loops of src/rpc.rs that send, for any invariant that the other events keep: `J k` leaves
-- room for `k` more sends of messages that satisfy `M`.
use y_delta_crankers.Base.{
  ℕ, zero, suc, Bool, true, false, not, ◌||◌, List, [], ◌∷◌, Option, none, some,
}
use y_delta_crankers.System.Types.{Signature, Keypair, Lut, Instruction, Label, Message}
use y_delta_crankers.System.Env.{Env, Event, Reply, reply, refused, sent, asked_stop}
use y_delta_crankers.System.Action.{State, Action, record_event, pure, fail, panic, call, ◌>>◌}
use y_delta_crankers.System.Rules.{
  Triple, Keeps, bind-Triple, bind-Keeps, then-Triple, then-Keeps, if-Keeps, if-Triple, pure-Keeps,
  fail-Keeps, or_fail-Keeps, of_reply-Keeps, call-Keeps, call_noting-Triple, modify-Keeps,
  attempt-Triple, After-mono, or_panic-Keeps, of_result-Keeps, mono-Triple, Keeps-under,
}
use y_delta_crankers.System.Quiet.{IsQuiet}
use y_delta_crankers.Rpc
use y_delta_crankers.Rpc.Errors.{is_transient}

-- What an invariant of the sending loops has to satisfy.
pub record SendRules : Type 1 where
  -- after an answer or an error, and after a panic
  pub after : State → Type 0
  pub crashed : State → Type 0
  -- with room for so many sends of allowed messages
  pub room : ℕ → State → Type 0
  pub allowed : Message → Type 0
  pub quiet : (k : ℕ) (e : Event) (s : State) → IsQuiet e → room k s → room k (record_event e s)
  pub weak : (k : ℕ) (s : State) → room k s → after s
  pub crash : (k : ℕ) (s : State) → room k s → crashed s
  pub spend :
      (k : ℕ) (m : Message) (sig : Signature) (confirmed : Bool) (s : State)
      → allowed m
      → room (suc k) s
      → room k (record_event (sent m sig confirmed) s)

module _ (env : Env) (rpc : Rpc.Rpc) (rules : SendRules) where
  latest_blockhash-Keeps :
      (k : ℕ) → Keeps (rules.room k) rules.crashed (Rpc.latest_blockhash env rpc)
  unfolding Rpc.latest_blockhash
  latest_blockhash-Keeps k =
      bind-Keeps (call-Keeps _ _ (λ s h. rules.quiet k _ s tt h)) of_reply-Keeps

  pub stopped-Keeps : (k : ℕ) → Keeps (rules.room k) rules.crashed (Rpc.stopped env rpc)
  unfolding Rpc.stopped
  stopped-Keeps k =
      elim rpc.has_stop
        as (λ b.
          Keeps (rules.room k) rules.crashed
            (elim b [ true ↦ call asked_stop env.stop_flag | false ↦ pure false ])) [
              | true ↦ call-Keeps _ _ (λ s h. rules.quiet k _ s tt h)
              | false ↦ pure-Keeps _
            ]

  previous_landed-Keeps :
      (k : ℕ) (last_sig : Option Signature)
      → Keeps (rules.room k) rules.crashed (Rpc.previous_landed env rpc last_sig)
  unfolding Rpc.previous_landed
  previous_landed-Keeps k none = pure-Keeps _
  previous_landed-Keeps k (some prev) =
      bind-Keeps (call-Keeps _ _ (λ s h. rules.quiet k _ s tt h)) (λ r. pure-Keeps _)

  -- A loop that has room for the sends it has left.
  abbrev pub Fits : ℕ → Action Signature → Type 0
  Fits k m = Triple rules.after rules.crashed (rules.room k) m (λ _ s. rules.after s)

  after_send-Fits :
      (again : Option Signature → Action Signature) (left : ℕ) (is_last : Bool) (sig : Signature)
      (r : Reply Signature)
      → ((sig' : Signature) → Fits left (again (some sig')))
      → Fits left (Rpc.after_send env rpc again is_last sig r)
  after_send-Fits again left is_last sig (reply confirmed) h =
      mono-Triple (rules.weak left) (pure-Keeps _)
  after_send-Fits again left is_last sig (refused e) h =
      if-Triple (not (is_transient e) || is_last)
        (λ _. mono-Triple (rules.weak left) (fail-Keeps _))
        (λ _.
          then-Triple (λ _. rules.room left)
            (Keeps-under (rules.weak left) (modify-Keeps _ (λ s c. rules.quiet left _ s tt c)))
            (λ u. h sig))

  unless_landed-Fits :
      (k : ℕ) (send : Action Signature) (landed : Option Signature)
      → Fits k send
      → Fits k (Rpc.unless_landed env rpc send landed)
  unless_landed-Fits k send none h = h
  unless_landed-Fits k send (some prev) h = mono-Triple (rules.weak k) (pure-Keeps _)

  pub unless_stopped-Fits :
      (k : ℕ) (go : Action Signature) (stop : Bool)
      → Fits k go
      → Fits k (Rpc.unless_stopped env rpc go stop)
  unless_stopped-Fits k go true h = mono-Triple (rules.weak k) (fail-Keeps _)
  unless_stopped-Fits k go false h = h

  -- A build that ends with a message that may be sent.
  abbrev pub Builds : Action (Message × Signature) → Type 0
  Builds m =
      (k : ℕ)
      → Triple (rules.room k) rules.crashed (rules.room k) m
          (λ signed s. rules.room k s × rules.allowed signed.0)

  under-Builds :
      (k : ℕ) {m : Action (Message × Signature)}
      → Builds m
      → Triple rules.after rules.crashed
          (rules.room k)
          m
          (λ signed s. rules.room k s × rules.allowed signed.0)
  under-Builds k {m} h = record {
    run = λ s j.
        After-mono (rules.room k) rules.crashed rules.after rules.crashed _ _ (m s) ((h k).run s j)
          (rules.weak k) (λ t x. x) (λ a t q. q);
  }

  pub send_once-Fits :
      (build : ℕ → Action (Message × Signature)) (again : Option Signature → Action Signature)
      (left : ℕ) (is_last : Bool)
      → ((n : ℕ) → Builds (build n))
      → ((sig : Signature) → Fits left (again (some sig)))
      → Fits (suc left) (Rpc.send_once env rpc build again is_last)
  unfolding Rpc.send_once
  send_once-Fits build again left is_last b h =
      bind-Triple (λ _. rules.room (suc left))
        (Keeps-under (rules.weak (suc left)) (latest_blockhash-Keeps (suc left)))
        λ n.
          bind-Triple (λ signed s. rules.room (suc left) s × rules.allowed signed.0)
            (under-Builds (suc left) (b n))
            λ signed.
              bind-Triple (λ _. rules.room left)
                (call_noting-Triple _ _ (λ s c. rules.spend left signed.0 signed.1 _ s c.1 c.0))
                λ r. after_send-Fits again left is_last signed.1 r h

  pub send_attempts-Fits :
      (build : ℕ → Action (Message × Signature)) (left : ℕ) (last_sig : Option Signature)
      → ((n : ℕ) → Builds (build n))
      → Fits left (Rpc.send_attempts env rpc build left last_sig)
  unfolding Rpc.send_attempts panic
  send_attempts-Fits build zero last_sig b = record { run = λ s j. rules.crash 0 s j }
  send_attempts-Fits build (suc left) last_sig b =
      bind-Triple (λ _. rules.room (suc left))
        (Keeps-under (rules.weak (suc left)) (stopped-Keeps (suc left)))
        λ stop. unless_stopped-Fits (suc left) _ stop (
          bind-Triple (λ _. rules.room (suc left))
            (Keeps-under (rules.weak (suc left)) (previous_landed-Keeps (suc left) last_sig))
            λ landed.
              unless_landed-Fits (suc left) _ landed (
                send_once-Fits build _ left _ b
                  (λ sig. send_attempts-Fits build left (some sig) b)))

  first_signature-Builds :
      (msg : Message) (signatures : List Signature)
      → rules.allowed msg
      → Builds (Rpc.first_signature env rpc msg signatures)
  unfolding fail pure
  first_signature-Builds msg [] e k = record { run = λ s c. c }
  first_signature-Builds msg (sig ∷ rest) e k = record { run = λ s c. (c, e) }

  pub legacy_transaction-Builds :
      (all_ixs : List Instruction) (signers : List Keypair) (fee_payer : Keypair) (n : ℕ)
      → rules.allowed
          (record { payer = env.pubkey_of fee_payer; ixs = all_ixs; luts = []; blockhash = n })
      → Builds (Rpc.legacy_transaction env rpc all_ixs signers fee_payer n)
  unfolding Rpc.legacy_transaction
  legacy_transaction-Builds all_ixs signers fee_payer n e k =
      bind-Triple (λ _. rules.room k) (or_panic-Keeps (rules.crash k) _)
        λ sigs. first_signature-Builds _ sigs e k

  pub v0_transaction-Builds :
      (all_ixs : List Instruction) (luts : List Lut) (signers : List Keypair) (fee_payer : Keypair)
      (n : ℕ)
      → rules.allowed
          (record { payer = env.pubkey_of fee_payer; ixs = all_ixs; luts = luts; blockhash = n })
      → Builds (Rpc.v0_transaction env rpc all_ixs luts signers fee_payer n)
  unfolding Rpc.v0_transaction ◌>>◌
  v0_transaction-Builds all_ixs luts signers fee_payer n e k =
      bind-Triple (λ _. rules.room k) (if-Keeps _ (pure-Keeps _) (fail-Keeps _))
        λ u.
          bind-Triple (λ _. rules.room k) (or_fail-Keeps _ _)
            λ sigs. first_signature-Builds _ sigs e k

-- A send that is run and counted.
pub counted_send-Triple :
    (env : Env) (rpc : Rpc.Rpc) {I X P : State → Type 0} (label : Label) (send : Action Signature)
    → ((s : State) (e : Event) → IsQuiet e → I s → I (record_event e s))
    → ((s : State) → I s → X s)
    → Triple I X P send (λ _ s. I s)
    → Triple I X P (Rpc.counted_send env rpc label send) (λ _ s. I s)
unfolding Rpc.counted_send
counted_send-Triple env rpc {I} label send quiet crash h =
    bind-Triple (λ _. I) (attempt-Triple h)
      λ r. then-Keeps (modify-Keeps _ (λ s i. quiet s _ tt i)) (of_result-Keeps crash r)
