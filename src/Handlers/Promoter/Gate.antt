-- ===== src/Handlers/Promoter/Gate.antt =====
-- The promoter pays for no transaction that a simulation has not passed.
use y_delta_crankers.Base.{refl, not, List, [], ◌∷◌}
use y_delta_crankers.System.Types.{Pubkey, BankInfo, MarketView, PendingMatchedLoan, SeatView}
use y_delta_crankers.System.Env.{Env}
use y_delta_crankers.System.Action.{Key, State, Result, ok, err, panicked, ◌>>◌}
use y_delta_crankers.System.Rules.{
  After, Keeps, bind-Triple, bind-Keeps, then-Keeps, if-Keeps, if-Triple, pure-Keeps, fail-Keeps,
  gets-Keeps, or_fail-Keeps, attempt-Keeps, panic-Keeps, for_sum-Keeps, mono-Triple,
}
use y_delta_crankers.System.Inflight.{guarded-Keeps}
use y_delta_crankers.Rpc.Allowed.{Policy, Sent, Allowed, message_reads}
use y_delta_crankers.Rpc.Gate.{
  Passed, Lets, AreGated, Gated, Crashed, Simulated, simulate-Simulated,
  send_signed_labeled-Cleared, passing,
}
use y_delta_crankers.Rpc.Reads.{get_account_data-Keeps}
use y_delta_crankers.ChainReader.Quiet.{
  list_markets-Keeps, read_pending_matched_loans-Keeps, read_seat_at-Keeps,
}
use y_delta_crankers.Handlers.Context.{HandlerContext, banks_snapshot}
use y_delta_crankers.Handlers.Promoter

module _ (P : Policy) (lets : Lets P) (ks : List Key) (env : Env) (ctx : HandlerContext) where
  settle_for_seat-Allowed :
      (market debt_mint : Pubkey) (bank : BankInfo) (seat : SeatView)
      → Keeps (Allowed P ks) (Sent P) (Promoter.settle_for_seat env ctx market debt_mint bank seat)
  unfolding Promoter.build_vault_settle_addrs
  settle_for_seat-Allowed market debt_mint bank seat =
      if-Keeps _ (pure-Keeps _) (if-Keeps _ (fail-Keeps _) (pure-Keeps _))

  assemble_vault_settle-Allowed :
      (market : Pubkey) (entry : PendingMatchedLoan) (debt_mint : Pubkey) (bank : BankInfo)
      → Keeps
          (Allowed P ks)
          (Sent P)
          (Promoter.assemble_vault_settle env ctx market entry debt_mint bank)
  unfolding Promoter.assemble_vault_settle Promoter.lender_seat
  assemble_vault_settle-Allowed market entry debt_mint bank =
      if-Keeps _
        (bind-Keeps
          (bind-Keeps (get_account_data-Keeps (message_reads P ks) env ctx.rpc market) λ b.
            bind-Keeps (or_fail-Keeps _ _)
              λ data'. read_seat_at-Keeps (message_reads P ks) env ctx.rpc data' _)
          (settle_for_seat-Allowed market debt_mint bank))
        (pure-Keeps _)

  promote_one-Allowed :
      (market : MarketView) (entry : PendingMatchedLoan)
      → Keeps (Allowed P ks) (Sent P) (Promoter.promote_one env ctx market entry)
  unfolding Promoter.promote_one banks_snapshot ◌>>◌
  promote_one-Allowed market entry = bind-Keeps (gets-Keeps _) λ banks.
      bind-Keeps (or_fail-Keeps _ _) λ bank.
        bind-Keeps (assemble_vault_settle-Allowed market.address entry market.debt_mint bank) λ vs.
          bind-Triple
            (Simulated P ks env ctx.rpc (Promoter.promote_ix env ctx market entry bank vs ∷ []))
            (simulate-Simulated P ks env ctx.rpc _ _)
            λ sim.
              if-Triple (not sim.is_ok) (λ e. mono-Triple (λ s c. c.0) (pure-Keeps _))
                λ e.
                  bind-Triple (λ _ s. Allowed P ks s)
                    (mono-Triple (λ s c. (c.0, c.1 (passing sim.is_ok e)))
                      (send_signed_labeled-Cleared P lets ks env ctx.rpc _ _ _))
                    (λ sig. pure-Keeps _)

module _ (P : Policy) (lets : Lets P) (ks : List Key) (env : Env) (ctx : HandlerContext) where
  promote_all-Allowed :
      (market : MarketView) (r : Result (List PendingMatchedLoan))
      → Keeps (Allowed P ks) (Sent P) (Promoter.promote_all env ctx market r)
  promote_all-Allowed market (ok pending) =
      for_sum-Keeps pending
        λ e. guarded-Keeps (λ s js g. g) _ ks (λ js. promote_one-Allowed P lets js env ctx market e)
  promote_all-Allowed market (err e) = pure-Keeps _
  promote_all-Allowed market panicked = (panic-Keeps (λ s g. g.0))

  pub tick-Allowed : Keeps (Allowed P ks) (Sent P) (Promoter.tick env ctx)
  unfolding Promoter.tick Promoter.visit_market
  tick-Allowed =
      (bind-Keeps (list_markets-Keeps (message_reads P ks) env ctx.rpc) λ markets.
        then-Keeps
          (for_sum-Keeps markets λ m. if-Keeps m.is_paused (pure-Keeps _) (
            bind-Keeps
              (attempt-Keeps
                (read_pending_matched_loans-Keeps (message_reads P ks) env ctx.rpc m.address))
              (promote_all-Allowed m)))
          (pure-Keeps _))

-- If every transaction sent so far had passed a simulation of its instructions (those for the
-- compute budget in front aside) before it was sent, this still holds after a tick of the promoter,
-- however the tick ends and whatever the environment answers; and if the tick ends with a value or
-- an error, the same keys are in flight after it as before.
pub promoter-Gated :
    (env : Env) (ctx : HandlerContext) (s : State)
    → AreGated s.history
    → After (Gated s.inflight) Crashed (λ _ t. Gated s.inflight t) (Promoter.tick env ctx s)
promoter-Gated env ctx s g = (tick-Allowed Passed (λ h m p. p) s.inflight env ctx).run s (g, refl)
