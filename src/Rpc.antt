-- ===== src/Rpc.antt =====
-- src/rpc.rs: transactions are sent with three attempts and a check that the previous attempt has
-- not landed; simulations; account reads. The latency histogram and the log lines are left out.
pub mod Answered
pub mod Errors
pub mod Gate
pub mod Retry
pub mod Sending
pub mod Reads
pub mod Batch
pub mod Allowed
pub mod Landed
use y_delta_crankers.Base.{
  ℕ, zero, suc, ltb, Bool, true, false, not, ◌||◌, List, [], ◌∷◌, ◌++◌, Option, none, some,
  is_empty, codes, contains_text, if◌then◌else◌, ◌==◌,
}
use y_delta_crankers.System.Types.{
  Pubkey, Signature, Keypair, Lut, Account, Instruction, set_compute_unit_limit,
  set_compute_unit_price, Label, untagged, Message, ClientError, client, no_signers, shutdown,
  no_signature, compile_failed, signing_failed, send_failed,
}
use y_delta_crankers.System.Env.{
  Env, Reply, reply, refused, SimValue, TxStatus, asked_account, asked_blockhash, asked_statuses,
  asked_stop, simulated, sent, counted, slept,
}
use y_delta_crankers.System.Action.{
  Action, Result, ok, err, panicked, pure, fail, panic, or_fail, or_panic, of_reply, of_result,
  ◌>>=◌, ◌>>◌, call, call_noting, attempt, modify, record_event,
}
use Errors.{is_transient}

pub record Rpc : Type 0 where
  pub priority_fee_micro_lamports : ℕ
  pub compute_unit_limit : ℕ
  -- whether a stop signal is attached
  pub has_stop : Bool

abbrev pub new : ℕ → ℕ → Rpc
new priority_fee_micro_lamports compute_unit_limit = record {
  priority_fee_micro_lamports = priority_fee_micro_lamports;
  compute_unit_limit = compute_unit_limit;
  has_stop = false;
}

abbrev pub with_stop_signal : Rpc → Rpc
with_stop_signal rpc = record rpc { has_stop = true }

abbrev pub v0_compute_unit_limit : ℕ
v0_compute_unit_limit = 1_400_000

pub record SimulationResult : Type 0 where
  pub is_ok : Bool
  pub logs : List (List ℕ)

unfoldable pub priority_fee_preamble : Rpc → ℕ → List Instruction
priority_fee_preamble rpc cu_limit =
    if ltb 0 rpc.priority_fee_micro_lamports
    then set_compute_unit_limit cu_limit
      ∷ set_compute_unit_price rpc.priority_fee_micro_lamports
      ∷ []
    else set_compute_unit_limit cu_limit ∷ []

module _ (env : Env) (rpc : Rpc) where
  unfoldable pub stopped : Action Bool
  stopped = elim rpc.has_stop [ true ↦ call asked_stop env.stop_flag | false ↦ pure false ]

  abbrev pub account_data : Reply Account → Action (Option (List ℕ))
  account_data (reply a) = pure (if is_empty a.bytes then none else some a.bytes)
  account_data (refused e) =
      if contains_text (codes "AccountNotFound") e.text then pure none else fail (client e)

  unfoldable pub get_account_data : Pubkey → Action (Option (List ℕ))
  get_account_data pk = do r ← call (asked_account pk) (λ h. env.get_account h pk); account_data r

  unfoldable pub latest_blockhash : Action ℕ
  latest_blockhash = do r ← call asked_blockhash env.get_latest_blockhash; of_reply r

  -- `resp.value.first()` is `Some(Some(_))`
  abbrev pub is_known : Reply (List (Option TxStatus)) → Bool
  is_known (reply (some status ∷ rest)) = true
  is_known _ = false

  -- The previous signature, if the cluster has a status for it.
  unfoldable pub previous_landed : Option Signature → Action (Option Signature)
  previous_landed none = pure none
  previous_landed (some prev) = do
    r ← call (asked_statuses (prev ∷ [])) (λ h. env.get_signature_statuses h (prev ∷ []))
    pure (if is_known r then some prev else none)

  abbrev pub is_reply {ℓ} : {A : Type ℓ} → Reply A → Bool
  is_reply (reply a) = true
  is_reply (refused e) = false

  -- After a send: its signature, the error, or a pause and the next attempt.
  abbrev pub after_send :
      (Option Signature → Action Signature) → Bool → Signature → Reply Signature → Action Signature
  after_send again is_last sig (reply confirmed) = pure confirmed
  after_send again is_last sig (refused e) =
      if not (is_transient e) || is_last
      then fail (send_failed e)
      else (modify (record_event (slept 500)) >> again (some sig))

  -- One attempt that has to send: a blockhash, the signed message, the send.
  unfoldable pub send_once :
      (ℕ → Action (Message × Signature))
      → (Option Signature → Action Signature)
      → Bool
      → Action Signature
  send_once build again is_last = do
    blockhash ← latest_blockhash
    signed ← build blockhash
    r ←
        call_noting (λ h. env.send_and_confirm h signed.0 signed.1)
          (λ r. sent signed.0 signed.1 (is_reply r))
    after_send again is_last signed.1 r

  abbrev pub unless_landed : Action Signature → Option Signature → Action Signature
  unless_landed send none = send
  unless_landed send (some prev) = pure prev

  abbrev pub unless_stopped : Action Signature → Bool → Action Signature
  unless_stopped go true = fail shutdown
  unless_stopped go false = go

  -- The loop `for attempt in 0..3`, by the attempts that are left.
  unfoldable pub send_attempts :
      (ℕ → Action (Message × Signature)) → ℕ → Option Signature → Action Signature
  send_attempts build zero last_sig = panic
  send_attempts build (suc left) last_sig = do
    stop ← stopped
    unless_stopped
        (do
          landed ← previous_landed last_sig
          unless_landed (send_once build (send_attempts build left) (left == 0)) landed)
        stop

  abbrev pub first_signature : Message → List Signature → Action (Message × Signature)
  first_signature msg [] = fail no_signature
  first_signature msg (sig ∷ rest) = pure (msg, sig)

  -- `Transaction::new_signed_with_payer`, which panics if a key is missing.
  unfoldable pub legacy_transaction :
      List Instruction → List Keypair → Keypair → ℕ → Action (Message × Signature)
  legacy_transaction all_ixs signers fee_payer blockhash = do
    let msg : Message = record {
      payer = env.pubkey_of fee_payer;
      ixs = all_ixs;
      luts = [];
      blockhash = blockhash;
    }
    signatures ← or_panic (env.sign msg signers)
    first_signature msg signatures

  unfoldable pub v0_transaction :
      List Instruction → List Lut → List Keypair → Keypair → ℕ → Action (Message × Signature)
  v0_transaction all_ixs luts signers fee_payer blockhash = do
    let msg : Message = record {
      payer = env.pubkey_of fee_payer;
      ixs = all_ixs;
      luts = luts;
      blockhash = blockhash;
    }
    if env.compiles msg then pure tt else fail compile_failed
    signatures ← or_fail (env.sign msg signers) signing_failed
    first_signature msg signatures

  unfoldable pub send_with_retry : List Instruction → List Keypair → Keypair → Action Signature
  send_with_retry all_ixs signers fee_payer =
      send_attempts (legacy_transaction all_ixs signers fee_payer) 3 none

  unfoldable pub send_v0_with_retry :
      List Instruction → List Lut → List Keypair → Keypair → Action Signature
  send_v0_with_retry all_ixs luts signers fee_payer =
      send_attempts (v0_transaction all_ixs luts signers fee_payer) 3 none

  abbrev pub is_success : Result Signature → Bool
  is_success (ok sig) = true
  is_success _ = false

  -- Run a send and count it under its label.
  unfoldable pub counted_send : Label → Action Signature → Action Signature
  counted_send label send = do
    result ← attempt send
    modify (record_event (counted label (is_success result)))
    of_result result

  unfoldable pub send_signed_labeled : Label → List Instruction → List Keypair → Action Signature
  send_signed_labeled label ixs [] = fail no_signers
  send_signed_labeled label ixs (fee_payer ∷ others) = counted_send label (
      send_with_retry (priority_fee_preamble rpc rpc.compute_unit_limit ++ ixs) (fee_payer ∷ others)
        fee_payer)

  unfoldable pub send_signed : List Instruction → List Keypair → Action Signature
  send_signed ixs signers = send_signed_labeled untagged ixs signers

  unfoldable pub send_signed_v0_labeled :
      Label → List Instruction → List Lut → List Keypair → Action Signature
  send_signed_v0_labeled label ixs luts [] = fail no_signers
  send_signed_v0_labeled label ixs luts (fee_payer ∷ others) = counted_send label (
      send_v0_with_retry (priority_fee_preamble rpc v0_compute_unit_limit ++ ixs) luts
        (fee_payer ∷ others) fee_payer)

  abbrev pub passed : Reply SimValue → Bool
  passed (reply v) = not v.failed
  passed (refused e) = false

  unfoldable pub simulate_v0 : List Instruction → List Lut → Pubkey → Action SimulationResult
  simulate_v0 ixs luts fee_payer = do
    blockhash ← latest_blockhash
    let msg : Message = record { payer = fee_payer; ixs = ixs; luts = luts; blockhash = blockhash }
    if env.compiles msg then pure tt else fail compile_failed
    r ← call_noting (λ h. env.simulate_transaction h msg) (λ r. simulated msg (passed r))
    value ← of_reply r
    pure (record { is_ok = not value.failed; logs = value.logs })

  unfoldable pub simulate : List Instruction → Pubkey → Action SimulationResult
  simulate ixs fee_payer =
      simulate_v0 (priority_fee_preamble rpc rpc.compute_unit_limit ++ ixs) [] fee_payer
