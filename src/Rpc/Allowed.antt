-- ===== src/Rpc/Allowed.antt =====
-- Which messages are sent through src/rpc.rs: an invariant that holds each of them to a policy.
use y_delta_crankers.Base.{ℕ, List, [], ◌∷◌, ◌++◌, none}
use y_delta_crankers.System.Types.{Keypair, Lut, Instruction, Label, Message}
use y_delta_crankers.System.Env.{
  Env, Event, History, sent, simulated, asked_account, asked_accounts, asked_program_accounts,
  asked_blockhash, asked_statuses, asked_balance, asked_time, asked_instant, asked_stop,
  asked_gateway, asked_slot, asked_queue, asked_gateways, counted, slept,
}
use y_delta_crankers.System.Action.{State, Key, record_event}
use y_delta_crankers.System.Rules.{Keeps}
use y_delta_crankers.System.Quiet.{IsQuiet, Undisturbed}
use y_delta_crankers.System.Inflight.{Holding}
use y_delta_crankers.Rpc
use y_delta_crankers.Rpc.Sending.{
  SendRules, send_attempts-Fits, legacy_transaction-Builds, v0_transaction-Builds,
  counted_send-Triple,
}

-- Which messages may be sent after which histories.
abbrev pub Policy : Type 1
Policy = History → Message → Type 0

-- Every transaction in the history satisfied the policy when it was sent.
abbrev pub AreSent : Policy → History → Type 0
AreSent P [] = Unit
AreSent P (sent m sig confirmed ∷ h) = P h m × AreSent P h
AreSent P (e ∷ h) = AreSent P h

-- The same after a panic, and with these keys in flight.
abbrev pub Sent : Policy → State → Type 0
Sent P s = AreSent P s.history

abbrev pub Allowed : Policy → List Key → State → Type 0
Allowed P ks s = Sent P s × Holding ks s

-- A policy that another one implies.
pub AreSent-mono :
    (P Q : Policy)
    → ((h : History) (m : Message) → P h m → Q h m)
    → (h : History) → AreSent P h
    → AreSent Q h
AreSent-mono P Q w [] a = tt
AreSent-mono P Q w (sent m sig confirmed ∷ h) a = (w h m a.0, AreSent-mono P Q w h a.1)
AreSent-mono P Q w (asked_account k ∷ h) a = AreSent-mono P Q w h a
AreSent-mono P Q w (asked_accounts l ∷ h) a = AreSent-mono P Q w h a
AreSent-mono P Q w (asked_program_accounts l ∷ h) a = AreSent-mono P Q w h a
AreSent-mono P Q w (asked_blockhash ∷ h) a = AreSent-mono P Q w h a
AreSent-mono P Q w (asked_statuses l ∷ h) a = AreSent-mono P Q w h a
AreSent-mono P Q w (asked_balance k ∷ h) a = AreSent-mono P Q w h a
AreSent-mono P Q w (asked_time ∷ h) a = AreSent-mono P Q w h a
AreSent-mono P Q w (asked_instant ∷ h) a = AreSent-mono P Q w h a
AreSent-mono P Q w (asked_stop ∷ h) a = AreSent-mono P Q w h a
AreSent-mono P Q w (asked_gateway l n ∷ h) a = AreSent-mono P Q w h a
AreSent-mono P Q w (asked_slot ∷ h) a = AreSent-mono P Q w h a
AreSent-mono P Q w (asked_queue k ∷ h) a = AreSent-mono P Q w h a
AreSent-mono P Q w (asked_gateways n ∷ h) a = AreSent-mono P Q w h a
AreSent-mono P Q w (simulated m b ∷ h) a = AreSent-mono P Q w h a
AreSent-mono P Q w (counted l b ∷ h) a = AreSent-mono P Q w h a
AreSent-mono P Q w (slept n ∷ h) a = AreSent-mono P Q w h a

module _ (P : Policy) (ks : List Key) where
  quiet-Allowed :
      (e : Event) (s : State) → IsQuiet e → Allowed P ks s → Allowed P ks (record_event e s)
  quiet-Allowed (asked_account k) s q c = c
  quiet-Allowed (asked_accounts l) s q c = c
  quiet-Allowed (asked_program_accounts l) s q c = c
  quiet-Allowed asked_blockhash s q c = c
  quiet-Allowed (asked_statuses l) s q c = c
  quiet-Allowed (asked_balance k) s q c = c
  quiet-Allowed asked_time s q c = c
  quiet-Allowed asked_instant s q c = c
  quiet-Allowed asked_stop s q c = c
  quiet-Allowed (asked_gateway l n) s q c = c
  quiet-Allowed asked_slot s q c = c
  quiet-Allowed (asked_queue k) s q c = c
  quiet-Allowed (asked_gateways n) s q c = c
  quiet-Allowed (simulated m b) s q c = c
  quiet-Allowed (counted l b) s q c = c
  quiet-Allowed (slept n) s q c = c
  quiet-Allowed (sent m sig confirmed) s q c = absurd q

  pub message_reads : Undisturbed (Allowed P ks) (Sent P)
  message_reads = record { quiet = quiet-Allowed; recached = λ c s a. a; crash = λ s a. a.0 }

  abbrev allowed_rules : SendRules
  allowed_rules = record {
    after = Allowed P ks;
    crashed = Sent P;
    room = λ _. Allowed P ks;
    allowed = λ m. (h : History) → P h m;
    quiet = λ k. quiet-Allowed;
    weak = λ k s a. a;
    crash = λ k s a. a.0;
    spend = λ k m sig confirmed s p a. ((p s.history, a.0), a.1);
  }

  -- The instructions go out behind the preamble, paid for by the first signer.
  pub send_signed_labeled-Allowed :
      (env : Env) (rpc : Rpc.Rpc) (label : Label) (ixs : List Instruction) (fee_payer : Keypair)
      (others : List Keypair)
      → ((n : ℕ) (h : History)
          → P h (record {
            payer = env.pubkey_of fee_payer;
            ixs = Rpc.priority_fee_preamble rpc rpc.compute_unit_limit ++ ixs;
            luts = [];
            blockhash = n;
          }))
      → Keeps
          (Allowed P ks)
          (Sent P)
          (Rpc.send_signed_labeled env rpc label ixs (fee_payer ∷ others))
  unfolding Rpc.send_signed_labeled Rpc.send_with_retry
  send_signed_labeled-Allowed env rpc label ixs fee_payer others p =
      counted_send-Triple env rpc label _ (λ s e q a. quiet-Allowed e s q a) (λ s a. a.0)
        (send_attempts-Fits env rpc allowed_rules _ 3 none λ n.
          legacy_transaction-Builds env rpc allowed_rules _ (fee_payer ∷ others) fee_payer n (p n))

  pub send_signed_v0_labeled-Allowed :
      (env : Env) (rpc : Rpc.Rpc) (label : Label) (ixs : List Instruction) (luts : List Lut)
      (fee_payer : Keypair) (others : List Keypair)
      → ((n : ℕ) (h : History)
          → P h (record {
            payer = env.pubkey_of fee_payer;
            ixs = Rpc.priority_fee_preamble rpc Rpc.v0_compute_unit_limit ++ ixs;
            luts = luts;
            blockhash = n;
          }))
      → Keeps
          (Allowed P ks)
          (Sent P)
          (Rpc.send_signed_v0_labeled env rpc label ixs luts (fee_payer ∷ others))
  unfolding Rpc.send_signed_v0_labeled Rpc.send_v0_with_retry
  send_signed_v0_labeled-Allowed env rpc label ixs luts fee_payer others p =
      counted_send-Triple env rpc label _ (λ s e q a. quiet-Allowed e s q a) (λ s a. a.0)
        (send_attempts-Fits env rpc allowed_rules _ 3 none λ n.
          v0_transaction-Builds env rpc allowed_rules _ luts (fee_payer ∷ others) fee_payer n (p n))
