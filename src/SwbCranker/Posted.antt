-- ===== src/SwbCranker/Posted.antt =====
-- What the periodic loop of src/swb_cranker.rs posts, and who pays for it.
use y_delta_crankers.Base.{ℕ, zero, suc, ◌≡◌, refl, List, [], ◌∷◌, Option, some}
use y_delta_crankers.System.Types.{Pubkey, Signature, Message}
use y_delta_crankers.System.Env.{Env, History}
use y_delta_crankers.System.Action.{Key, Result, ok, err, panicked, ◌>>◌}
use y_delta_crankers.System.Rules.{
  Keeps, bind-Triple, bind-Keeps, then-Keeps, if-Keeps, pure-Keeps, fail-Keeps, gets-Keeps,
  or_fail-Keeps, of_reply-Keeps, call-Keeps, call_noting-Keeps, modify-Keeps, attempt-Keeps,
  panic-Keeps, known-Triple,
}
use y_delta_crankers.Rpc.Allowed.{Policy, Sent, Allowed, message_reads}
use y_delta_crankers.Supervisor.Rounds.{load_stop-Keeps, unless_stopping-Keeps}
use y_delta_crankers.SwbCranker.{SwbCranker, Bundle, send_signed, try_crank, crank}
use y_delta_crankers.SwbCranker.Quiet.{try_gateways-Keeps}
use y_delta_crankers.SwbCranker.Fetched.{fetch_update_via-Triple}
use y_delta_crankers.SwbCranker.WarmKeeper

-- The message has the instructions and tables that a gateway gave for some feeds, and the cranker's
-- payer pays for it.
abbrev pub IsUpdate : Env → SwbCranker → Message → Type 0
IsUpdate env cranker m =
    (h : History) × (oracles : List Pubkey) × (gateway : ℕ) × (bundle : Bundle)
    × (env.fetch_update_consensus h oracles gateway ≡ some bundle)
    × (m.ixs ≡ bundle.0)
    × (m.luts ≡ bundle.1)
    × (m.payer ≡ env.pubkey_of cranker.payer)

-- For any policy that lets such updates be sent.
module _ (P : Policy) (ks : List Key) (env : Env) (cranker : SwbCranker)
    (lets : (h : History) (m : Message) → IsUpdate env cranker m → P h m) where
  send_signed-Allowed :
      (msg : Message) (signatures : List Signature)
      → IsUpdate env cranker msg
      → Keeps (Allowed P ks) (Sent P) (send_signed env cranker msg signatures)
  send_signed-Allowed msg [] p = panic-Keeps (λ s a. a.0)
  send_signed-Allowed msg (sig ∷ rest) p =
      bind-Keeps (call_noting-Keeps _ _ (λ r s a. ((lets s.history msg p, a.0), a.1)))
        of_reply-Keeps

  try_crank-Allowed :
      (oracles : List Pubkey) (gateway : ℕ)
      → Keeps (Allowed P ks) (Sent P) (try_crank env cranker oracles gateway)
  unfolding try_crank
  try_crank-Allowed oracles gateway =
      bind-Triple _ (fetch_update_via-Triple (message_reads P ks) env cranker oracles gateway)
        λ bundle. known-Triple λ f. bind-Keeps (call-Keeps _ _ (λ s a. a)) λ r.
          bind-Keeps (of_reply-Keeps r) λ blockhash.
            bind-Keeps (if-Keeps _ (pure-Keeps _) (fail-Keeps _)) λ compiled.
              bind-Keeps (or_fail-Keeps _ _) λ signatures.
                send_signed-Allowed _ signatures
                  (f.0, oracles, gateway, bundle, f.1, refl, refl, refl)

  crank-Allowed :
      (oracles : List Pubkey) → Keeps (Allowed P ks) (Sent P) (crank env cranker oracles)
  unfolding crank
  crank-Allowed [] = pure-Keeps _
  crank-Allowed (oracle ∷ oracles) =
      bind-Keeps
        (try_gateways-Keeps (message_reads P ks) env cranker _ cranker.gateways
          (try_crank-Allowed (oracle ∷ oracles)))
        λ sig. pure-Keeps _

  posted-Allowed :
      (r : Result (Option Signature))
      → Keeps (Allowed P ks) (Sent P) (WarmKeeper.posted env cranker r)
  posted-Allowed (ok sig) = pure-Keeps _
  posted-Allowed (err e) = pure-Keeps _
  posted-Allowed panicked = panic-Keeps (λ s a. a.0)

  post_update-Allowed :
      (oracles : List Pubkey)
      → Keeps (Allowed P ks) (Sent P) (WarmKeeper.post_update env cranker oracles)
  post_update-Allowed [] = pure-Keeps _
  post_update-Allowed (oracle ∷ oracles) =
      bind-Keeps (attempt-Keeps (crank-Allowed (oracle ∷ oracles))) posted-Allowed

  sleep_steps-Allowed :
      (steps : ℕ) → Keeps (Allowed P ks) (Sent P) (WarmKeeper.sleep_steps env cranker steps)
  unfolding WarmKeeper.sleep_steps
  sleep_steps-Allowed zero = pure-Keeps _
  sleep_steps-Allowed (suc steps) = bind-Keeps (load_stop-Keeps (message_reads P ks) env) λ stop.
      unless_stopping-Keeps (message_reads P ks) env _ stop
        (then-Keeps (modify-Keeps _ (λ s a. a)) (sleep_steps-Allowed steps))

  pub swb_crank_round-Allowed :
      Keeps (Allowed P ks) (Sent P) (WarmKeeper.swb_crank_round env cranker)
  unfolding WarmKeeper.swb_crank_round ◌>>◌
  swb_crank_round-Allowed = bind-Keeps (load_stop-Keeps (message_reads P ks) env) λ stop.
      unless_stopping-Keeps (message_reads P ks) env _ stop (
        bind-Keeps (gets-Keeps _)
          λ banks. bind-Keeps (post_update-Allowed _) λ u. sleep_steps-Allowed 120)
