-- ===== src/Handlers/Liquidator/Repayments/Scan.antt =====
-- What the scan of the liquidator (src/handlers/liquidator.rs) sends.
use y_delta_crankers.Base.{ℕ, ◌≡◌, ◌<◌, refl, Bool, false, not, ◌||◌, ◌&&◌, ◌==◌, List, arith}
use y_delta_crankers.Base.Int.{ℤ}
use y_delta_crankers.System.Types.{LoanView, MarketView, Message}
use y_delta_crankers.System.Env.{Env, History}
use y_delta_crankers.System.Action.{Key, State, Result, ok, err, panicked, pure, ◌>>◌}
use y_delta_crankers.System.Rules.{
  After, Triple, Keeps, known-Triple, bind-Triple, bind-Keeps, if-Triple, pure-Keeps, call-Triple,
  attempt-Keeps, panic-Keeps, for_sum-All,
}
use y_delta_crankers.System.Inflight.{guarded-Keeps}
use y_delta_crankers.Rpc.Allowed.{Policy, AreSent, Sent, Allowed, message_reads}
use y_delta_crankers.ChainReader.Sources.{
  IsListed, IsListedMarket, IsListedLoan, list_markets-Triple, list_loans_for_market-Triple,
}
use y_delta_crankers.Handlers.Util.{now_unix, seconds}
use y_delta_crankers.Handlers.Context.{HandlerContext}
use y_delta_crankers.Handlers.Liquidator
use y_delta_crankers.Handlers.Liquidator.Amounts.{effective_grace, is_matured, maybe_ltv_breach}
use y_delta_crankers.Handlers.Liquidator.Repayments.{IsRepayment, Repayments, is_overdue}
use y_delta_crankers.Handlers.Liquidator.Repayments.Loan.{try_settle_or_liquidate-Allowed}

-- The guard of the loop.
guard_active :
    (state wanted debt : ℕ) (skip : Bool)
    → not (state == wanted) || debt == 0 || skip ≡ false
    → (state ≡ wanted) × (0 < debt)
guard_active state wanted debt skip e = ground (arith, e)

module _ (P : Policy) (ks : List Key) (env : Env) (ctx : HandlerContext)
    (lets : (h : History) (m : Message) → IsRepayment env ctx m → P h m) where
  visit_loan-Allowed :
      (market : MarketView) (loan : LoanView) (t_now : ℤ)
      → IsListedMarket env market
      → market.is_paused ≡ false
      → IsListedLoan env ctx.rpc market.address loan
      → (h : History) × (seconds (env.system_time h) ≡ t_now)
      → Keeps (Allowed P ks) (Sent P) (
          Liquidator.visit_loan env ctx market t_now
            (effective_grace market ctx.cfg.thresholds.maturity_extra_buffer)
            loan)
  unfolding Liquidator.visit_loan
  visit_loan-Allowed market loan t_now listed unpaused held read =
      if-Triple
        (not (loan.state == env.loan_state_active)
          || loan.outstanding_debt_atoms == 0
          || not (
              is_matured t_now loan
                (effective_grace market ctx.cfg.thresholds.maturity_extra_buffer))
            && not (maybe_ltv_breach env loan))
        (λ e. pure-Keeps _)
        λ e.
          let g =
            guard_active loan.state env.loan_state_active loan.outstanding_debt_atoms
              (not (
                  is_matured t_now loan
                    (effective_grace market ctx.cfg.thresholds.maturity_extra_buffer))
                && not (maybe_ltv_breach env loan))
              e in
          guarded-Keeps (λ s js a. a) _ ks
            λ js.
              try_settle_or_liquidate-Allowed P js env ctx lets market loan listed unpaused held g.0
                g.1
                (is_matured t_now loan
                  (effective_grace market ctx.cfg.thresholds.maturity_extra_buffer))
                (maybe_ltv_breach env loan) (is_overdue env ctx market loan t_now read) (λ b. b)

  now_unix-Triple :
      Triple
        (Allowed P ks)
        (Sent P)
        (Allowed P ks)
        (now_unix env)
        (λ t_now s. Allowed P ks s × ((h : History) × (seconds (env.system_time h) ≡ t_now)))
  unfolding now_unix pure
  now_unix-Triple =
      bind-Triple
        (λ t s. Allowed P ks s × ((h : History) × (seconds (env.system_time h) ≡ seconds t)))
        (call-Triple _ _ (λ s a. (a, (s.history, refl)))) λ t. record { run = λ s a. a }

  scan_market-Allowed :
      (market : MarketView)
      → IsListedMarket env market
      → market.is_paused ≡ false
      → Keeps (Allowed P ks) (Sent P) (Liquidator.scan_market env ctx market)
  unfolding Liquidator.scan_market
  scan_market-Allowed market listed unpaused =
      bind-Triple _ (list_loans_for_market-Triple (message_reads P ks) env ctx.rpc market.address)
        λ loans. known-Triple λ held. bind-Triple _ now_unix-Triple λ t_now. known-Triple λ read.
          for_sum-All loans held
            λ loan h. visit_loan-Allowed market loan t_now listed unpaused h read

  counted_scan-Allowed :
      (r : Result ℕ) → Keeps (Allowed P ks) (Sent P) (Liquidator.counted_scan env ctx r)
  counted_scan-Allowed (ok n) = pure-Keeps _
  counted_scan-Allowed (err e) = pure-Keeps _
  counted_scan-Allowed panicked = panic-Keeps (λ s a. a.0)

  pub tick-Allowed :
      Triple
        (Allowed P ks)
        (Sent P)
        (λ s. Allowed P ks s × IsListed env s.markets_cache)
        (Liquidator.tick env ctx)
        (λ _. Allowed P ks)
  unfolding Liquidator.tick Liquidator.visit_market ◌>>◌
  tick-Allowed = bind-Triple _ (list_markets-Triple (message_reads P ks) env ctx.rpc) λ markets.
      known-Triple λ listed.
        bind-Keeps
          (for_sum-All markets listed λ market l.
            if-Triple market.is_paused (λ _. pure-Keeps _)
              λ unpaused.
                bind-Keeps (attempt-Keeps (scan_market-Allowed market l unpaused))
                  counted_scan-Allowed)
          λ n. pure-Keeps _

-- If every market in the cache was decoded from an answer of the node to the query for markets,
-- and every transaction sent so far is a repayment (behind the instructions for the compute budget
-- and the bundle, which is empty or what one of the cranker's gateways gave for the first oracle
-- of the bank that stands in the instruction for the collateral, it has exactly one instruction,
-- paid for by the fee payer, for a market decoded from such an answer that is not paused, and a
-- loan decoded from an answer to the query for that market's loans, which is active and has a
-- debt; it asks for all, or for less than the estimate of what is owed; and it settles a loan
-- whose maturity, with the market's grace and the configured buffer, is not after some reading of
-- the clock, or liquidates one that is P2Pool or has accrued at least the pre-filter's ratio, with
-- an expected bonus of at least the configured minimum), then every transaction sent is still one
-- after a tick of the liquidator, however it ends and whatever the environment answers; and if the
-- tick ends with a value or an error, the same keys are in flight.
pub liquidator-IsRepayment :
    (env : Env) (ctx : HandlerContext) (s : State)
    → IsListed env s.markets_cache
    → AreSent (Repayments env ctx) s.history
    → After
        (Allowed (Repayments env ctx) s.inflight)
        (Sent (Repayments env ctx))
        (λ _. Allowed (Repayments env ctx) s.inflight)
        (Liquidator.tick env ctx s)
liquidator-IsRepayment env ctx s listed a =
    (tick-Allowed (Repayments env ctx) s.inflight env ctx (λ h m p. p)).run s ((a, refl), listed)
