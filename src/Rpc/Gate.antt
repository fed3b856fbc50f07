-- ===== src/Rpc/Gate.antt =====
-- The gate that the handlers put before every transaction: what is sent has passed a simulation,
-- stated for any policy that lets such messages be sent.
-- Compute-budget instructions at the front are left out of the comparison, since the two paths of
-- src/rpc.rs prepend them at different places.
pub mod Clearance
pub use Clearance.{
  strip_budget, SimPassed, Passed, Lets, AreGated, Crashed, Gated, Cleared, passing,
  strip_budget-preamble,
}
use y_delta_crankers.Base.{
  ℕ, zero, suc, ltb, not, ◌≡◌, refl, sym, ap, subst, ◌∙◌, ◌⊎◌, inl, inr, Bool, true, false, List,
  [], ◌∷◌, ◌++◌, Option, none, some, Bool-cases, ◌==◌, if◌then◌else◌,
}
use y_delta_crankers.System.Types.{
  Pubkey, Signature, Keypair, Lut, Instruction, set_compute_unit_limit, set_compute_unit_price,
  Label, Account, Message, no_signers, compile_failed, signing_failed,
}
use y_delta_crankers.System.Env.{
  Env, Event, History, Reply, reply, refused, SimValue, sent, simulated, asked_account,
  asked_accounts, asked_program_accounts, asked_blockhash, asked_statuses, asked_balance,
  asked_time, asked_instant, asked_stop, asked_gateway, asked_slot, asked_queue, asked_gateways,
  counted, slept,
}
use y_delta_crankers.System.Action.{
  State, Action, Result, ok, err, panicked, record_event, Key, pure, fail, of_reply, call,
  call_noting, modify, ◌>>=◌, ◌>>◌,
}
use y_delta_crankers.System.Rules.{
  After, Triple, Keeps, bind-Triple, bind-Keeps, then-Keeps, if-Keeps, pure-Keeps, fail-Keeps,
  or_fail-Keeps, of_reply-Keeps, call-Keeps, call_noting-Keeps, call_noting-Triple, modify-Keeps,
  attempt-Keeps, panic-Keeps, or_panic-Keeps, of_result-Keeps, After-mono,
}
use y_delta_crankers.Rpc
use y_delta_crankers.System.Quiet.{IsQuiet}
use y_delta_crankers.Rpc.Allowed.{Policy, Sent, Allowed}
use y_delta_crankers.Rpc.Sending.{
  SendRules, send_attempts-Fits, legacy_transaction-Builds, v0_transaction-Builds,
  counted_send-Triple,
}

module _ (P : Policy) (ks : List Key) (env : Env) (rpc : Rpc.Rpc) where
  Cleared-preamble :
      (n : ℕ) (ixs : List Instruction) (s : State)
      → Cleared P ks ixs s
      → Cleared P ks (Rpc.priority_fee_preamble rpc n ++ ixs) s
  Cleared-preamble n ixs s c =
      (c.0, subst (λ core. SimPassed core s.history) (sym (strip_budget-preamble rpc n ixs)) c.1)

  quiet-Cleared :
      (ixs : List Instruction) (e : Event) (s : State)
      → IsQuiet e
      → Cleared P ks ixs s
      → Cleared P ks ixs (record_event e s)
  quiet-Cleared ixs (asked_account k) s q c = c
  quiet-Cleared ixs (asked_accounts l) s q c = c
  quiet-Cleared ixs (asked_program_accounts l) s q c = c
  quiet-Cleared ixs asked_blockhash s q c = c
  quiet-Cleared ixs (asked_statuses l) s q c = c
  quiet-Cleared ixs (asked_balance k) s q c = c
  quiet-Cleared ixs asked_time s q c = c
  quiet-Cleared ixs asked_instant s q c = c
  quiet-Cleared ixs asked_stop s q c = c
  quiet-Cleared ixs (asked_gateway l n) s q c = c
  quiet-Cleared ixs asked_slot s q c = c
  quiet-Cleared ixs (asked_queue k) s q c = c
  quiet-Cleared ixs (asked_gateways n) s q c = c
  quiet-Cleared ixs (simulated m false) s q c = c
  quiet-Cleared ixs (simulated m true) s q c = (c.0, inr c.1)
  quiet-Cleared ixs (counted l b) s q c = c
  quiet-Cleared ixs (slept n) s q c = c
  quiet-Cleared ixs (sent m sig confirmed) s q c = absurd q

  -- A counted send of cleared instructions keeps the gate.
  counted_send-Cleared :
      (label : Label) (ixs all_ixs : List Instruction) (send : Action Signature)
      → ((s : State) → Cleared P ks ixs s → Cleared P ks all_ixs s)
      → Triple
          (Cleared P ks all_ixs)
          (Sent P)
          (Cleared P ks all_ixs)
          send
          (λ _ s. Cleared P ks all_ixs s)
      → Triple
          (Allowed P ks)
          (Sent P)
          (Cleared P ks ixs)
          (Rpc.counted_send env rpc label send)
          (λ _ s. Allowed P ks s)
  counted_send-Cleared label ixs all_ixs send w h = record {
    run = λ s c.
        After-mono (Cleared P ks all_ixs) (Sent P) (Allowed P ks) (Sent P)
          (λ _ t. Cleared P ks all_ixs t) (λ _ t. Allowed P ks t)
          (Rpc.counted_send env rpc label send s)
          ((counted_send-Triple env rpc label send (λ t e q d. quiet-Cleared all_ixs e t q d)
              (λ t d. d.0.0) h).run
            s (w s c))
          (λ t d. d.0) (λ t d. d) (λ a t d. d.0);
  }

  -- What a simulation leaves: the gate, and clearance if it reports success.
  abbrev pub Simulated : List Instruction → Rpc.SimulationResult → State → Type 0
  Simulated ixs r s = Allowed P ks s × (r.is_ok ≡ true → SimPassed (strip_budget ixs) s.history)

  latest_blockhash-Allowed : Keeps (Allowed P ks) (Sent P) (Rpc.latest_blockhash env rpc)
  unfolding Rpc.latest_blockhash
  latest_blockhash-Allowed = bind-Keeps (call-Keeps _ _ (λ s c. c)) of_reply-Keeps

  -- After the call: the gate, and clearance if the reply passed.
  abbrev Noted : List Instruction → Reply SimValue → State → Type 0
  Noted ixs r s =
      Allowed P ks s × (Rpc.passed env rpc r ≡ true → SimPassed (strip_budget ixs) s.history)

  simulated-Noted :
      (m : Message) (r : Reply SimValue) (s : State)
      → Allowed P ks s
      → Noted m.ixs r (record_event (simulated m (Rpc.passed env rpc r)) s)
  simulated-Noted m r s g = elim (Bool-cases (Rpc.passed env rpc r)) [
    | inl e ↦ rw e (g, λ p. inl refl)
    | inr e ↦ rw e (g, λ p. cc)
  ]

  value-Simulated :
      (ixs : List Instruction) (r : Reply SimValue)
      → Triple
          (Allowed P ks)
          (Sent P)
          (Noted ixs r)
          (of_reply r >>= λ value. pure (record { is_ok = not value.failed; logs = value.logs }))
          (Simulated ixs)
  unfolding of_reply ◌>>=◌ pure fail
  value-Simulated ixs (reply v) = record { run = λ s n. n }
  value-Simulated ixs (refused e) = record { run = λ s n. n.0 }

  pub simulate_v0-Simulated :
      (ixs : List Instruction) (luts : List Lut) (payer : Pubkey)
      → Triple
          (Allowed P ks)
          (Sent P)
          (Allowed P ks)
          (Rpc.simulate_v0 env rpc ixs luts payer)
          (Simulated ixs)
  unfolding Rpc.simulate_v0 ◌>>◌
  simulate_v0-Simulated ixs luts payer =
      bind-Triple (λ _ s. Allowed P ks s) latest_blockhash-Allowed
        λ n.
          bind-Triple (λ _ s. Allowed P ks s) (if-Keeps _ (pure-Keeps _) (fail-Keeps _))
            λ u.
              bind-Triple (Noted ixs)
                (call_noting-Triple _ _ (λ s g.
                  simulated-Noted (record { payer = payer; ixs = ixs; luts = luts; blockhash = n })
                    _ s g))
                λ r. value-Simulated ixs r

  pub simulate-Simulated :
      (ixs : List Instruction) (payer : Pubkey)
      → Triple
          (Allowed P ks)
          (Sent P)
          (Allowed P ks)
          (Rpc.simulate env rpc ixs payer)
          (Simulated ixs)
  unfolding Rpc.simulate
  simulate-Simulated ixs payer =
      subst
        (λ core.
          Triple (Allowed P ks) (Sent P) (Allowed P ks) (Rpc.simulate env rpc ixs payer)
            (λ r s. Allowed P ks s × (r.is_ok ≡ true → SimPassed core s.history)))
        (strip_budget-preamble rpc rpc.compute_unit_limit ixs) (simulate_v0-Simulated _ [] payer)

module _ (P : Policy) (lets : Lets P) (ks : List Key) (env : Env) (rpc : Rpc.Rpc) where
  sent-Cleared :
      (all_ixs : List Instruction) (k : ℕ) (m : Message) (sig : Signature) (confirmed : Bool)
      (s : State)
      → m.ixs ≡ all_ixs
      → Cleared P ks all_ixs s
      → Cleared P ks all_ixs (record_event (sent m sig confirmed) s)
  sent-Cleared all_ixs k m sig confirmed s e c = (
    (
      (lets s.history m (subst (λ ixs. SimPassed (strip_budget ixs) s.history) (sym e) c.1), c.0.0),
      c.0.1,
    ),
    c.1,
  )

  abbrev cleared_rules : List Instruction → SendRules
  cleared_rules all_ixs = record {
    after = Cleared P ks all_ixs;
    crashed = (Sent P);
    room = λ _. Cleared P ks all_ixs;
    allowed = λ m. m.ixs ≡ all_ixs;
    quiet = λ k. quiet-Cleared P ks env rpc all_ixs;
    weak = λ k s c. c;
    crash = λ k s c. c.0.0;
    spend = sent-Cleared all_ixs;
  }

  -- Sending instructions that have passed a simulation keeps every transaction gated.
  pub send_signed_labeled-Cleared :
      (label : Label) (ixs : List Instruction) (signers : List Keypair)
      → Triple
          (Allowed P ks)
          (Sent P)
          (Cleared P ks ixs)
          (Rpc.send_signed_labeled env rpc label ixs signers)
          (λ _ s. Allowed P ks s)
  unfolding Rpc.send_signed_labeled Rpc.send_with_retry fail
  send_signed_labeled-Cleared label ixs [] = record { run = λ s c. c.0 }
  send_signed_labeled-Cleared label ixs (fee_payer ∷ others) =
      counted_send-Cleared P ks env rpc label ixs
        (Rpc.priority_fee_preamble rpc rpc.compute_unit_limit ++ ixs) _
        (Cleared-preamble P ks env rpc rpc.compute_unit_limit ixs)
        (send_attempts-Fits env rpc (cleared_rules _) _ 3 none λ n.
          legacy_transaction-Builds env rpc (cleared_rules _) _ (fee_payer ∷ others) fee_payer n
            refl)

  pub send_signed_v0_labeled-Cleared :
      (label : Label) (ixs : List Instruction) (luts : List Lut) (signers : List Keypair)
      → Triple
          (Allowed P ks)
          (Sent P)
          (Cleared P ks ixs)
          (Rpc.send_signed_v0_labeled env rpc label ixs luts signers)
          (λ _ s. Allowed P ks s)
  unfolding Rpc.send_signed_v0_labeled Rpc.send_v0_with_retry fail
  send_signed_v0_labeled-Cleared label ixs luts [] = record { run = λ s c. c.0 }
  send_signed_v0_labeled-Cleared label ixs luts (fee_payer ∷ others) =
      counted_send-Cleared P ks env rpc label ixs
        (Rpc.priority_fee_preamble rpc Rpc.v0_compute_unit_limit ++ ixs) _
        (Cleared-preamble P ks env rpc Rpc.v0_compute_unit_limit ixs)
        (send_attempts-Fits env rpc (cleared_rules _) _ 3 none λ n.
          v0_transaction-Builds env rpc (cleared_rules _) _ luts (fee_payer ∷ others) fee_payer n
            refl)
