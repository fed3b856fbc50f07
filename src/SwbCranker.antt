-- ===== src/SwbCranker.antt =====
-- src/swb_cranker.rs: the Switchboard cranker. Its gateways are tried in turn; it builds update
-- bundles for the handlers, and posts updates itself in the periodic loop.
pub mod Quiet
pub mod Failover
pub mod WarmKeeper
pub mod Posted
pub mod Fetched
use y_delta_crankers.Base.{
  ℕ, suc, zero, ◌+◌, ltb, Bool, true, false, List, [], ◌∷◌, Option, none, some, is_empty,
  if◌then◌else◌,
}
use y_delta_crankers.System.Types.{
  Pubkey, Signature, Keypair, Lut, Instruction, Message, gateways_failed, gateway_failed,
  no_gateways, queue_failed, gateways_unavailable, compile_failed, signing_failed, client,
}
use y_delta_crankers.System.Env.{
  Env, Reply, reply, refused, asked_gateway, asked_queue, asked_gateways, asked_blockhash, sent,
}
use y_delta_crankers.System.Action.{
  Action, Result, ok, err, panicked, pure, fail, panic, or_fail, of_reply, call, call_noting,
  attempt, ◌>>=◌, ◌>>◌,
}
use y_delta_crankers.Rpc

abbrev pub Bundle : Type 0
Bundle = List Instruction × List Lut

pub record SwbCranker : Type 0 where
  -- the gateways of the queue, in order
  pub gateways : List ℕ
  pub payer : Keypair

-- `SwbCranker::new`: the queue, and all its gateways.
abbrev pub checked : List ℕ → Keypair → Action SwbCranker
checked [] payer = fail no_gateways
checked (gateway ∷ gateways) payer = pure (record { gateways = gateway ∷ gateways; payer = payer })

unfoldable pub new : Env → Pubkey → Keypair → Action SwbCranker
new env swb_queue payer = do
  q ← call (asked_queue swb_queue) (λ h. env.load_queue h swb_queue)
  queue ← or_fail q queue_failed
  g ← call (asked_gateways queue) (λ h. env.fetch_gateways h queue)
  gateways ← or_fail g gateways_unavailable
  checked gateways payer

module _ (env : Env) (cranker : SwbCranker) where
  unfoldable pub fetch_update_via : List Pubkey → ℕ → Action Bundle
  fetch_update_via oracles gateway = do
    bundle ←
        call (asked_gateway oracles gateway) (λ h. env.fetch_update_consensus h oracles gateway)
    or_fail bundle gateway_failed

  -- A result that ends the loop over the gateways, or the rest of the loop; a panic passes on.
  abbrev pub or_next : {A : Type 0} → Action A → Result A → Action A
  or_next next (ok a) = pure a
  or_next next (err e) = next
  or_next next panicked = panic

  -- The loops over the gateways, which end at the first success.
  unfoldable pub try_gateways : {A : Type 0} → (ℕ → Action A) → List ℕ → Action A
  try_gateways try_one [] = fail gateways_failed
  try_gateways try_one (gateway ∷ rest) = do
    r ← attempt (try_one gateway)
    or_next (try_gateways try_one rest) r

  unfoldable pub fetch_update_ixs : List Pubkey → Action Bundle
  fetch_update_ixs [] = pure ([], [])
  fetch_update_ixs (oracle ∷ oracles) =
      try_gateways (fetch_update_via (oracle ∷ oracles)) cranker.gateways

  abbrev pub is_reply : Reply Signature → Bool
  is_reply (reply sig) = true
  is_reply (refused e) = false

  -- `send_and_confirm_transaction` of a signed message, which reads its first signature
  abbrev pub send_signed : Message → List Signature → Action Signature
  send_signed msg [] = panic
  send_signed msg (sig ∷ rest) = do
    r ← call_noting (λ h. env.send_and_confirm h msg sig) (λ r. sent msg sig (is_reply r))
    of_reply r

  -- One update in a transaction of its own, without a simulation.
  unfoldable pub try_crank : List Pubkey → ℕ → Action Signature
  try_crank oracles gateway = do
    bundle ← fetch_update_via oracles gateway
    r ← call asked_blockhash env.get_latest_blockhash
    blockhash ← of_reply r
    let msg : Message = record {
      payer = env.pubkey_of cranker.payer;
      ixs = bundle.0;
      luts = bundle.1;
      blockhash = blockhash;
    }
    compiled ← (if env.compiles msg then pure tt else fail compile_failed)
    signatures ← or_fail (env.sign msg (cranker.payer ∷ [])) signing_failed
    send_signed msg signatures

  unfoldable pub crank : List Pubkey → Action (Option Signature)
  crank [] = pure none
  crank (oracle ∷ oracles) = do
    sig ← try_gateways (try_crank (oracle ∷ oracles)) cranker.gateways
    pure (some sig)
