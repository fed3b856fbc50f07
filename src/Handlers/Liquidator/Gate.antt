-- ===== src/Handlers/Liquidator/Gate.antt =====
-- The liquidator pays for no transaction that a simulation has not passed.
use y_delta_crankers.Base.{refl, ℕ, Bool, true, false, not, List, Option, none, some}
use y_delta_crankers.System.Types.{
  Pubkey, Lut, Instruction, RepayArgs, Label, BankInfo, LoanView, MarketView,
}
use y_delta_crankers.System.Env.{Env}
use y_delta_crankers.System.Action.{Key, State, Result, ok, err, panicked, ◌>>◌}
use y_delta_crankers.System.Rules.{
  After, Keeps, bind-Triple, bind-Keeps, then-Keeps, if-Keeps, if-Triple, pure-Keeps, call-Keeps,
  attempt-Keeps, panic-Keeps, for_sum-Keeps, mono-Triple, weaken-Triple,
}
use y_delta_crankers.Rpc
use y_delta_crankers.System.Inflight.{guarded-Keeps}
use y_delta_crankers.Rpc.Allowed.{Policy, Sent, Allowed, message_reads}
use y_delta_crankers.Rpc.Gate.{
  Passed, Lets, AreGated, Gated, Crashed, Simulated, simulate_v0-Simulated,
  send_signed_v0_labeled-Cleared, passing,
}
use y_delta_crankers.ChainReader.Quiet.{list_markets-Keeps, list_loans_for_market-Keeps}
use y_delta_crankers.SwbCranker.{Bundle}
use y_delta_crankers.Handlers.Util.{now_unix}
use y_delta_crankers.Handlers.Context.{HandlerContext}
use y_delta_crankers.Handlers.Liquidator
use y_delta_crankers.Handlers.Liquidator.Quiet.{
  fetch_swb_bundle-Keeps, bank_pair-Keeps, pick_repay_amount-Keeps,
}

module _ (P : Policy) (lets : Lets P) (ks : List Key) (env : Env) (ctx : HandlerContext) where
  -- The bundle that is sent is the one whose confirming simulation has passed.
  confirm_and_send-Allowed :
      (label : Label) (bundle : List Instruction) (luts : List Lut)
      → Keeps (Allowed P ks) (Sent P) (Liquidator.confirm_and_send env ctx label bundle luts)
  unfolding Liquidator.confirm_and_send ◌>>◌
  confirm_and_send-Allowed label bundle luts =
      bind-Triple (Simulated P ks env ctx.rpc bundle)
        (simulate_v0-Simulated P ks env ctx.rpc bundle luts _)
        λ confirm.
          if-Triple (not confirm.is_ok) (λ e. mono-Triple (λ s c. c.0) (pure-Keeps _))
            (λ e.
              bind-Triple (λ _ s. Allowed P ks s)
                (mono-Triple (λ s c. (c.0, c.1 (passing confirm.is_ok e)))
                  (send_signed_v0_labeled-Cleared P lets ks env ctx.rpc label bundle luts _))
                (λ sig. pure-Keeps _))

  repay_loan-Allowed :
      (label : Label) (build : RepayArgs → Instruction) (swb : Bundle) (market : MarketView)
      (loan : LoanView) (banks : BankInfo × BankInfo)
      → Keeps
          (Allowed P ks)
          (Sent P)
          (Liquidator.repay_loan env ctx label build swb market loan banks)
  unfolding Liquidator.repay_loan
  repay_loan-Allowed label build swb market loan banks =
      bind-Keeps (pick_repay_amount-Keeps (message_reads P ks) env ctx _ loan) repay_with-Allowed
    where
      repay_with-Allowed :
          (amount : Option ℕ)
          → Keeps
              (Allowed P ks)
              (Sent P)
              (Liquidator.repay_with env ctx label build swb market loan banks amount)
      repay_with-Allowed none = pure-Keeps _
      repay_with-Allowed (some n) = confirm_and_send-Allowed label _ swb.1

  simulate-Allowed :
      (ixs : List Instruction) (luts : List Lut) (payer : Pubkey)
      → Keeps (Allowed P ks) (Sent P) (Rpc.simulate_v0 env ctx.rpc ixs luts payer)
  simulate-Allowed ixs luts payer =
      weaken-Triple (λ r s h. h.0) (simulate_v0-Simulated P ks env ctx.rpc ixs luts payer)

  try_settle_matured-Allowed :
      (market : MarketView) (loan : LoanView)
      → Keeps (Allowed P ks) (Sent P) (Liquidator.try_settle_matured env ctx market loan)
  unfolding Liquidator.try_settle_matured
  try_settle_matured-Allowed market loan =
      bind-Keeps (bank_pair-Keeps (message_reads P ks) env ctx _ _) λ banks.
        bind-Keeps (fetch_swb_bundle-Keeps (message_reads P ks) env ctx banks.1) λ swb.
          bind-Keeps (simulate-Allowed _ swb.1 _)
            λ sim. if-Keeps _ (pure-Keeps _) (repay_loan-Allowed _ _ swb market loan banks)

  try_liquidate_ltv-Allowed :
      (market : MarketView) (loan : LoanView)
      → Keeps (Allowed P ks) (Sent P) (Liquidator.try_liquidate_ltv env ctx market loan)
  unfolding Liquidator.try_liquidate_ltv
  try_liquidate_ltv-Allowed market loan =
      bind-Keeps (bank_pair-Keeps (message_reads P ks) env ctx _ _) λ banks.
        bind-Keeps (fetch_swb_bundle-Keeps (message_reads P ks) env ctx banks.1) λ swb.
          bind-Keeps (simulate-Allowed _ swb.1 _)
            λ sim. if-Keeps _ (pure-Keeps _) (repay_loan-Allowed _ _ swb market loan banks)

  settle_unless-Allowed :
      (matured : Bool) (market : MarketView) (loan : LoanView) (liquidated : Bool)
      → Keeps
          (Allowed P ks)
          (Sent P)
          (Liquidator.settle_unless env ctx matured market loan liquidated)
  settle_unless-Allowed matured market loan true = pure-Keeps _
  settle_unless-Allowed matured market loan false =
      if-Keeps matured (try_settle_matured-Allowed market loan) (pure-Keeps _)

  pub try_settle_or_liquidate-Allowed :
      (market : MarketView) (loan : LoanView) (matured breach : Bool)
      → Keeps
          (Allowed P ks)
          (Sent P)
          (Liquidator.try_settle_or_liquidate env ctx market loan matured breach)
  unfolding Liquidator.try_settle_or_liquidate
  try_settle_or_liquidate-Allowed market loan matured true =
      bind-Keeps (try_liquidate_ltv-Allowed market loan) (settle_unless-Allowed matured market loan)
  try_settle_or_liquidate-Allowed market loan matured false =
      if-Keeps matured (try_settle_matured-Allowed market loan) (pure-Keeps _)

module _ (P : Policy) (lets : Lets P) (ks : List Key) (env : Env) (ctx : HandlerContext) where
  scan_market-Allowed :
      (market : MarketView) → Keeps (Allowed P ks) (Sent P) (Liquidator.scan_market env ctx market)
  unfolding Liquidator.scan_market Liquidator.visit_loan now_unix
  scan_market-Allowed market =
      bind-Keeps (list_loans_for_market-Keeps (message_reads P ks) env ctx.rpc market.address)
        λ loans. bind-Keeps (bind-Keeps (call-Keeps _ _ (λ s g. g)) (λ t. pure-Keeps _)) λ t_now.
          for_sum-Keeps loans λ loan. if-Keeps _ (pure-Keeps _) (
            guarded-Keeps (λ s js g. g) _ ks
              (λ js. try_settle_or_liquidate-Allowed P lets js env ctx market loan _ _))

  counted_scan-Allowed :
      (r : Result ℕ) → Keeps (Allowed P ks) (Sent P) (Liquidator.counted_scan env ctx r)
  counted_scan-Allowed (ok n) = pure-Keeps _
  counted_scan-Allowed (err e) = pure-Keeps _
  counted_scan-Allowed panicked = (panic-Keeps (λ s g. g.0))

  pub tick-Allowed : Keeps (Allowed P ks) (Sent P) (Liquidator.tick env ctx)
  unfolding Liquidator.tick Liquidator.visit_market
  tick-Allowed =
      (bind-Keeps (list_markets-Keeps (message_reads P ks) env ctx.rpc) λ markets.
        then-Keeps
          (for_sum-Keeps markets λ market.
            if-Keeps market.is_paused (pure-Keeps _)
              (bind-Keeps (attempt-Keeps (scan_market-Allowed market)) counted_scan-Allowed))
          (pure-Keeps _))

-- If every transaction sent so far had passed a simulation of its instructions (those for the
-- compute budget in front aside) before it was sent, this still holds after a tick of the
-- liquidator, however the tick ends and whatever the environment answers; and if the tick ends with
-- a value or an error, the same keys are in flight after it as before.
pub liquidator-Gated :
    (env : Env) (ctx : HandlerContext) (s : State)
    → AreGated s.history
    → After (Gated s.inflight) Crashed (λ _ t. Gated s.inflight t) (Liquidator.tick env ctx s)
liquidator-Gated env ctx s g = (tick-Allowed Passed (λ h m p. p) s.inflight env ctx).run s (g, refl)
