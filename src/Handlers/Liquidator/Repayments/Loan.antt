-- ===== src/Handlers/Liquidator/Repayments/Loan.antt =====
-- What the liquidator (src/handlers/liquidator.rs) sends for one loan.
use y_delta_crankers.Base.{
  ◌∷◌, ℕ, ◌≡◌, ◌<◌, inl, inr, refl, Bool, true, false, not, ◌||◌, ltb, List, [], ◌++◌, Option, none,
  some, if◌then◌else◌,
}
use y_delta_crankers.System.Types.{
  Pubkey, Lut, Instruction, RepayArgs, Label, label_settle, label_liquidate, settle_matured_loan,
  liquidate_loan, BankInfo, LoanView, MarketView, Message,
}
use y_delta_crankers.System.Env.{Env, History}
use y_delta_crankers.System.Action.{Key, pure, ◌>>◌}
use y_delta_crankers.System.Rules.{
  Triple, Keeps, known-Triple, bind-Triple, bind-Keeps, if-Keeps, if-Triple, pure-Keeps,
  or_fail-Keeps, weaken-Triple,
}
use y_delta_crankers.Rpc
use y_delta_crankers.Rpc.Reads.{get_account_data-Keeps}
use y_delta_crankers.Rpc.Allowed.{
  Policy, Sent, Allowed, message_reads, send_signed_v0_labeled-Allowed,
}
use y_delta_crankers.Rpc.Gate.{simulate_v0-Simulated}
use y_delta_crankers.ChainReader.Sources.{IsListedMarket, IsListedLoan}
use y_delta_crankers.SwbCranker.{Bundle}
use y_delta_crankers.BankRegistry.{primary_oracle}
use y_delta_crankers.Handlers.Liquidator.Bundled.{IsBundle, fetch_swb_bundle-Triple}
use y_delta_crankers.Handlers.Context.{HandlerContext}
use y_delta_crankers.Handlers.Liquidator
use y_delta_crankers.Handlers.Liquidator.Amounts.{expected_bonus, maybe_ltv_breach}
use y_delta_crankers.Handlers.Liquidator.Quiet.{bank_pair-Keeps}
use y_delta_crankers.Handlers.Liquidator.Repayments.{
  IsOverdue, IsReasoned, IsRepayment, OfSize, is_breach, is_profitable, amount_of-OfSize,
}

-- For any policy.
module _ (P : Policy) (ks : List Key) (env : Env) (ctx : HandlerContext) where
  amount_from-Triple :
      (loan : LoanView) (acct : Option (List ℕ))
      → Triple
          (Allowed P ks)
          (Sent P)
          (Allowed P ks)
          (Liquidator.amount_from env ctx loan acct)
          (λ amount s. Allowed P ks s × OfSize env loan amount)
  unfolding pure
  amount_from-Triple loan none = record { run = λ s a. (a, tt) }
  amount_from-Triple loan (some bytes) =
      bind-Triple (λ _. Allowed P ks) (or_fail-Keeps _ _)
        λ balance. record { run = λ s a. (a, amount_of-OfSize env loan balance _ refl) }

  pick_repay_amount-Triple :
      (ata : Pubkey) (loan : LoanView)
      → Triple
          (Allowed P ks)
          (Sent P)
          (Allowed P ks)
          (Liquidator.pick_repay_amount env ctx ata loan)
          (λ amount s. Allowed P ks s × OfSize env loan amount)
  unfolding Liquidator.pick_repay_amount
  pick_repay_amount-Triple ata loan =
      bind-Triple (λ _. Allowed P ks) (get_account_data-Keeps (message_reads P ks) env ctx.rpc ata)
        (amount_from-Triple loan)

  simulate-Keeps :
      (ixs : List Instruction) (luts : List Lut) (payer : Pubkey)
      → Keeps (Allowed P ks) (Sent P) (Rpc.simulate_v0 env ctx.rpc ixs luts payer)
  simulate-Keeps ixs luts payer =
      weaken-Triple (λ r s h. h.0) (simulate_v0-Simulated P ks env ctx.rpc ixs luts payer)

  -- A bundle that may be sent.
  confirm_and_send-Allowed :
      (label : Label) (ixs : List Instruction) (luts : List Lut)
      → ((n : ℕ) (h : History)
          → P h (record {
            payer = env.pubkey_of ctx.signers.fee_payer;
            ixs = Rpc.priority_fee_preamble ctx.rpc Rpc.v0_compute_unit_limit ++ ixs;
            luts = luts;
            blockhash = n;
          }))
      → Keeps (Allowed P ks) (Sent P) (Liquidator.confirm_and_send env ctx label ixs luts)
  unfolding Liquidator.confirm_and_send ◌>>◌
  confirm_and_send-Allowed label ixs luts p = bind-Keeps (simulate-Keeps ixs luts _) λ confirm.
      if-Keeps _ (pure-Keeps _) (
        bind-Keeps
          (send_signed_v0_labeled-Allowed P ks env ctx.rpc label ixs luts ctx.signers.fee_payer []
            p)
          λ sig. pure-Keeps _)

  module _ (lets : (h : History) (m : Message) → IsRepayment env ctx m → P h m)
      (market : MarketView) (loan : LoanView) (listed : IsListedMarket env market)
      (unpaused : market.is_paused ≡ false) (held : IsListedLoan env ctx.rpc market.address loan)
      (active : loan.state ≡ env.loan_state_active) (owing : 0 < loan.outstanding_debt_atoms) where
    repay_with-Allowed :
        (label : Label) (build : RepayArgs → Instruction) (swb : Bundle)
        (banks : BankInfo × BankInfo) (amount : Option ℕ)
        → ((args : RepayArgs) → IsReasoned env ctx market loan args (build args))
        → OfSize env loan amount
        → IsBundle env ctx.swb_cranker (primary_oracle banks.1 ∷ []) swb
        → Keeps
            (Allowed P ks)
            (Sent P)
            (Liquidator.repay_with env ctx label build swb market loan banks amount)
    repay_with-Allowed label build swb banks none why o b = pure-Keeps _
    repay_with-Allowed label build swb banks (some n) why o given =
        confirm_and_send-Allowed label _ swb.1 λ b h. lets h _ (record {
          market = market;
          loan = loan;
          debt_bank = banks.0;
          collateral_bank = banks.1;
          amount = n;
          bundle = swb;
          ix = build (Liquidator.repay_args env ctx market loan banks.0 banks.1 n);
          listed = listed;
          unpaused = unpaused;
          held = held;
          bundled = given;
          active = active;
          owing = owing;
          sized = o;
          reasoned = why _;
          carried = refl;
          tabled = refl;
          paid = refl;
        })

    repay_loan-Allowed :
        (label : Label) (build : RepayArgs → Instruction) (swb : Bundle)
        (banks : BankInfo × BankInfo)
        → ((args : RepayArgs) → IsReasoned env ctx market loan args (build args))
        → IsBundle env ctx.swb_cranker (primary_oracle banks.1 ∷ []) swb
        → Keeps
            (Allowed P ks)
            (Sent P)
            (Liquidator.repay_loan env ctx label build swb market loan banks)
    unfolding Liquidator.repay_loan
    repay_loan-Allowed label build swb banks why given =
        bind-Triple _ (pick_repay_amount-Triple _ loan)
          λ amount. known-Triple λ o. repay_with-Allowed label build swb banks amount why o given

    try_settle_matured-Allowed :
        IsOverdue env ctx market loan
        → Keeps (Allowed P ks) (Sent P) (Liquidator.try_settle_matured env ctx market loan)
    unfolding Liquidator.try_settle_matured
    try_settle_matured-Allowed overdue =
        bind-Keeps (bank_pair-Keeps (message_reads P ks) env ctx _ _) λ banks.
          bind-Triple _ (fetch_swb_bundle-Triple (message_reads P ks) env ctx banks.1) λ swb.
            known-Triple λ given. bind-Keeps (simulate-Keeps _ swb.1 _) λ sim.
              if-Keeps _ (pure-Keeps _) (
                repay_loan-Allowed label_settle settle_matured_loan swb banks
                  (λ args. inl (refl, overdue)) given)

    try_liquidate_ltv-Allowed :
        maybe_ltv_breach env loan ≡ true
        → Keeps (Allowed P ks) (Sent P) (Liquidator.try_liquidate_ltv env ctx market loan)
    unfolding Liquidator.try_liquidate_ltv
    try_liquidate_ltv-Allowed breach =
        bind-Keeps (bank_pair-Keeps (message_reads P ks) env ctx _ _) λ banks.
          bind-Triple _ (fetch_swb_bundle-Triple (message_reads P ks) env ctx banks.1) λ swb.
            known-Triple λ given. bind-Keeps (simulate-Keeps _ swb.1 _) λ sim.
              if-Triple
                (not sim.is_ok
                  || ltb (expected_bonus market loan)
                      ctx.cfg.thresholds.min_liquidation_profit_atoms)
                (λ e. pure-Keeps _)
                λ e.
                  repay_loan-Allowed label_liquidate liquidate_loan swb banks
                    (λ args. inr (refl, (is_breach env loan breach, is_profitable sim.is_ok _ _ e)))
                    given

    settle_if-Allowed :
        (matured : Bool)
        → (matured ≡ true → IsOverdue env ctx market loan)
        → Keeps
            (Allowed P ks)
            (Sent P)
            (if matured then Liquidator.try_settle_matured env ctx market loan else pure false)
    settle_if-Allowed matured overdue =
        if-Triple matured (λ e. try_settle_matured-Allowed (overdue e)) (λ e. pure-Keeps _)

    settle_unless-Allowed :
        (matured liquidated : Bool)
        → (matured ≡ true → IsOverdue env ctx market loan)
        → Keeps
            (Allowed P ks)
            (Sent P)
            (Liquidator.settle_unless env ctx matured market loan liquidated)
    settle_unless-Allowed matured true overdue = pure-Keeps _
    settle_unless-Allowed matured false overdue = settle_if-Allowed matured overdue

    pub try_settle_or_liquidate-Allowed :
        (matured breach : Bool)
        → (matured ≡ true → IsOverdue env ctx market loan)
        → (breach ≡ true → maybe_ltv_breach env loan ≡ true)
        → Keeps
            (Allowed P ks)
            (Sent P)
            (Liquidator.try_settle_or_liquidate env ctx market loan matured breach)
    unfolding Liquidator.try_settle_or_liquidate
    try_settle_or_liquidate-Allowed matured true overdue breach =
        bind-Keeps (try_liquidate_ltv-Allowed (breach refl))
          λ liquidated. settle_unless-Allowed matured liquidated overdue
    try_settle_or_liquidate-Allowed matured false overdue breach = settle_if-Allowed matured overdue
