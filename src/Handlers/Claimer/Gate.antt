-- ===== src/Handlers/Claimer/Gate.antt =====
-- The claimer pays for no transaction that a simulation has not passed.
use y_delta_crankers.Base.{refl, ℕ, not, List, [], ◌∷◌}
use y_delta_crankers.System.Types.{Pubkey, MarketView, PendingVaultClaim}
use y_delta_crankers.System.Env.{Env}
use y_delta_crankers.System.Action.{Key, State, ◌>>◌}
use y_delta_crankers.System.Rules.{
  After, Keeps, bind-Triple, bind-Keeps, then-Keeps, if-Triple, pure-Keeps, gets-Keeps,
  or_fail-Keeps, for_sum-Keeps, mono-Triple,
}
use y_delta_crankers.System.Inflight.{guarded-Keeps}
use y_delta_crankers.Rpc.Allowed.{Policy, Sent, Allowed, message_reads}
use y_delta_crankers.Rpc.Gate.{
  Passed, Lets, AreGated, Gated, Crashed, Simulated, simulate-Simulated,
  send_signed_labeled-Cleared, passing,
}
use y_delta_crankers.ChainReader.Quiet.{
  list_markets-Keeps, list_sub_vaults-Keeps, list_pending_vault_claims-Keeps,
}
use y_delta_crankers.Handlers.Context.{HandlerContext, banks_snapshot}
use y_delta_crankers.Handlers.Claimer

module _ (P : Policy) (lets : Lets P) (ks : List Key) (env : Env) (ctx : HandlerContext) where
  sweep_one-Allowed :
      (entry : PendingVaultClaim) → Keeps (Allowed P ks) (Sent P) (Claimer.sweep_one env ctx entry)
  unfolding Claimer.sweep_one banks_snapshot ◌>>◌
  sweep_one-Allowed entry = bind-Keeps (gets-Keeps _) λ banks.
      bind-Keeps (or_fail-Keeps _ _) λ bank.
        bind-Triple (Simulated P ks env ctx.rpc (Claimer.claim_ix env ctx entry bank ∷ []))
          (simulate-Simulated P ks env ctx.rpc _ _)
          λ sim.
            if-Triple (not sim.is_ok) (λ e. mono-Triple (λ s c. c.0) (pure-Keeps _))
              λ e.
                bind-Triple (λ _ s. Allowed P ks s)
                  (mono-Triple (λ s c. (c.0, c.1 (passing sim.is_ok e)))
                    (send_signed_labeled-Cleared P lets ks env ctx.rpc _ _ _))
                  (λ sig. pure-Keeps _)

module _ (P : Policy) (lets : Lets P) (ks : List Key) (env : Env) (ctx : HandlerContext) where
  sweep_markets-Allowed :
      (pairs : List (Pubkey × ℕ)) (markets : List MarketView)
      → Keeps (Allowed P ks) (Sent P) (Claimer.sweep_markets env ctx pairs markets)
  unfolding Claimer.sweep_markets Claimer.sweep_all
  sweep_markets-Allowed pairs [] = pure-Keeps _
  sweep_markets-Allowed pairs (m ∷ ms) =
      bind-Keeps (list_pending_vault_claims-Keeps (message_reads P ks) env ctx.rpc (m ∷ ms))
        λ pending.
          then-Keeps
            (for_sum-Keeps _
              λ e. guarded-Keeps (λ s js g. g) _ ks (λ js. sweep_one-Allowed P lets js env ctx e))
            (pure-Keeps _)

  sweep_claimable-Allowed :
      (pairs : List (Pubkey × ℕ))
      → Keeps (Allowed P ks) (Sent P) (Claimer.sweep_claimable env ctx pairs)
  unfolding Claimer.sweep_claimable
  sweep_claimable-Allowed [] = pure-Keeps _
  sweep_claimable-Allowed (p ∷ ps) =
      bind-Keeps (list_markets-Keeps (message_reads P ks) env ctx.rpc)
        (sweep_markets-Allowed (p ∷ ps))

  pub tick-Allowed : Keeps (Allowed P ks) (Sent P) (Claimer.tick env ctx)
  unfolding Claimer.tick
  tick-Allowed =
      (bind-Keeps (list_sub_vaults-Keeps (message_reads P ks) env ctx.rpc)
        λ vs. sweep_claimable-Allowed _)

-- If every transaction sent so far had passed a simulation of its instructions (those for the
-- compute budget in front aside) before it was sent, this still holds after a tick of the claimer,
-- however the tick ends and whatever the environment answers; and if the tick ends with a value or
-- an error, the same keys are in flight after it as before.
pub claimer-Gated :
    (env : Env) (ctx : HandlerContext) (s : State)
    → AreGated s.history
    → After (Gated s.inflight) Crashed (λ _ t. Gated s.inflight t) (Claimer.tick env ctx s)
claimer-Gated env ctx s g = (tick-Allowed Passed (λ h m p. p) s.inflight env ctx).run s (g, refl)
