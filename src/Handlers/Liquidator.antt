-- ===== src/Handlers/Liquidator.antt =====
-- src/handlers/liquidator.rs: the scan of the loans of each market, and the two ways to close one:
-- settle a matured loan, or liquidate one whose collateral has fallen short.
pub mod Amounts
pub mod Quiet
pub mod Bundled
pub mod Gate
pub mod Repayments
pub mod Repay
use y_delta_crankers.Base.{
  ℕ, suc, ◌+◌, ltb, ◌==◌, Bool, true, false, not, ◌&&◌, ◌||◌, List, [], ◌∷◌, ◌++◌, Option, none,
  some, Map, if◌then◌else◌,
}
use y_delta_crankers.Base.Int.{ℤ}
use y_delta_crankers.System.Types.{
  Pubkey, Signature, Lut, Instruction, check_maturity_liquidatable, check_ltv_liquidatable,
  settle_matured_loan, liquidate_loan, RepayArgs, Label, label_settle, label_liquidate, BankInfo,
  LoanView, MarketView, ata_too_small, no_debt_bank, no_collateral_bank,
}
use y_delta_crankers.System.Env.{Env}
use y_delta_crankers.System.Action.{
  Action, Result, ok, err, panicked, Key, pure, fail, panic, or_fail, attempt, for_sum, guarded,
  tally, ◌>>=◌, ◌>>◌,
}
use y_delta_crankers.Rpc
use y_delta_crankers.ChainReader
use y_delta_crankers.BankRegistry.{ata_for, is_switchboard_pull, primary_oracle}
use y_delta_crankers.SwbCranker.{SwbCranker, Bundle, fetch_update_ixs}
use y_delta_crankers.Handlers.Util.{now_unix, spl_token_amount}
use y_delta_crankers.Handlers.Context.{HandlerContext, banks_snapshot, bank_for}
use Amounts.{
  is_p2pool, is_matured, maybe_ltv_breach, effective_grace, expected_bonus, outstanding_estimate,
  repay_amount,
}

abbrev pub count_of : Result ℕ → ℕ
count_of (ok n) = n
count_of _ = 0

-- A failed fetch of a bundle is the empty bundle.
unfoldable pub or_empty : Result Bundle → Action Bundle
or_empty (ok bundle) = pure bundle
or_empty (err e) = pure ([], [])
or_empty panicked = panic

module _ (env : Env) (ctx : HandlerContext) where
  abbrev pub payer_pk : Pubkey
  payer_pk = env.pubkey_of ctx.signers.fee_payer

  abbrev pub bundle_from : Option SwbCranker → BankInfo → Action Bundle
  bundle_from none collateral_bank = pure ([], [])
  bundle_from (some cranker) collateral_bank = do
    r ← attempt (fetch_update_ixs env cranker (primary_oracle collateral_bank ∷ []))
    or_empty r

  unfoldable pub fetch_swb_bundle : BankInfo → Action Bundle
  fetch_swb_bundle collateral_bank =
      if not (is_switchboard_pull collateral_bank)
      then pure ([], [])
      else bundle_from ctx.swb_cranker collateral_bank

  unfoldable pub bank_pair : Pubkey → Pubkey → Action (BankInfo × BankInfo)
  bank_pair debt_mint collateral_mint = do
    banks ← banks_snapshot
    debt_bank ← bank_for banks debt_mint (no_debt_bank debt_mint)
    collateral_bank ← bank_for banks collateral_mint (no_collateral_bank collateral_mint)
    pure (debt_bank, collateral_bank)

  -- The amount the keeper's account can fund; none if it is missing or too poor.
  abbrev pub amount_from : LoanView → Option (List ℕ) → Action (Option ℕ)
  amount_from loan none = pure none
  amount_from loan (some acct) = do
    ata_balance ← or_fail (spl_token_amount acct) ata_too_small
    pure (
        repay_amount (is_p2pool env loan) (outstanding_estimate (is_p2pool env loan) loan)
          ata_balance)

  unfoldable pub pick_repay_amount : Pubkey → LoanView → Action (Option ℕ)
  pick_repay_amount liquidator_debt_ata loan = do
    acct ← Rpc.get_account_data env ctx.rpc liquidator_debt_ata
    amount_from loan acct

  -- A P2Pool loan has no vault lender.
  unfoldable pub repay_args : MarketView → LoanView → BankInfo → BankInfo → ℕ → RepayArgs
  repay_args market loan debt_bank collateral_bank repay_atoms_max = record {
    market = market.address;
    payer = payer_pk;
    sequence = loan.matched_loan_sequence;
    debt_mint = market.debt_mint;
    collateral_mint = market.collateral_mint;
    liquidator_debt_ata = ata_for env debt_bank payer_pk;
    liquidator_collateral_ata = ata_for env collateral_bank payer_pk;
    debt_bank = debt_bank.bank;
    collateral_bank = collateral_bank.bank;
    debt_liquidity_vault = debt_bank.liquidity_vault;
    collateral_liquidity_vault = collateral_bank.liquidity_vault;
    collateral_liquidity_vault_authority = collateral_bank.liquidity_vault_authority;
    debt_oracles = debt_bank.oracles;
    collateral_oracles = collateral_bank.oracles;
    token_program = debt_bank.token_program;
    marginfi_group = ctx.cfg.marginfi_group;
    marginfi_program = ctx.cfg.marginfi_program_id;
    repay_atoms_max = repay_atoms_max;
    liquidator = payer_pk;
    global_vault = if is_p2pool env loan then none else some loan.lender_global_vault;
  }

  -- The confirming simulation of the real bundle, then its submission.
  unfoldable pub confirm_and_send : Label → List Instruction → List Lut → Action Bool
  confirm_and_send label real_bundle luts = do
    confirm ← Rpc.simulate_v0 env ctx.rpc real_bundle luts payer_pk
    if not confirm.is_ok
        then pure false
        else (Rpc.send_signed_v0_labeled env ctx.rpc label real_bundle luts
              (ctx.signers.fee_payer ∷ [])
            >> pure true)

  abbrev pub repay_with :
      Label
      → (RepayArgs → Instruction)
      → Bundle
      → MarketView
      → LoanView
      → BankInfo × BankInfo
      → Option ℕ
      → Action Bool
  repay_with label build swb market loan (debt_bank, collateral_bank) none = pure false
  repay_with label build swb market loan (debt_bank, collateral_bank) (some repay_atoms_max) =
      confirm_and_send label
        (swb.0 ++ build (repay_args market loan debt_bank collateral_bank repay_atoms_max) ∷ [])
        swb.1

  -- The part of both paths behind their checks.
  unfoldable pub repay_loan :
      Label
      → (RepayArgs → Instruction)
      → Bundle
      → MarketView
      → LoanView
      → BankInfo × BankInfo
      → Action Bool
  repay_loan label build swb market loan banks = do
    amount ← pick_repay_amount (ata_for env banks.0 payer_pk) loan
    repay_with label build swb market loan banks amount

  unfoldable pub try_settle_matured : MarketView → LoanView → Action Bool
  try_settle_matured market loan = do
    banks ← bank_pair market.debt_mint market.collateral_mint
    swb ← fetch_swb_bundle banks.1
    sim ←
        Rpc.simulate_v0 env ctx.rpc
          (swb.0
            ++ check_maturity_liquidatable market.address payer_pk loan.matched_loan_sequence
                banks.0.bank ctx.cfg.marginfi_program_id
              ∷ [])
          swb.1 payer_pk
    if not sim.is_ok
        then pure false
        else repay_loan label_settle settle_matured_loan swb market loan banks

  unfoldable pub try_liquidate_ltv : MarketView → LoanView → Action Bool
  try_liquidate_ltv market loan = do
    banks ← bank_pair market.debt_mint market.collateral_mint
    swb ← fetch_swb_bundle banks.1
    sim ←
        Rpc.simulate_v0 env ctx.rpc
          (swb.0
            ++ check_ltv_liquidatable market.address payer_pk loan.matched_loan_sequence
                banks.0.bank banks.1.bank banks.0.oracles banks.1.oracles
                ctx.cfg.marginfi_program_id
              ∷ [])
          swb.1 payer_pk
    if not sim.is_ok
          || ltb (expected_bonus market loan) ctx.cfg.thresholds.min_liquidation_profit_atoms
        then pure false
        else repay_loan label_liquidate liquidate_loan swb market loan banks

  abbrev pub settle_unless : Bool → MarketView → LoanView → Bool → Action Bool
  settle_unless matured market loan true = pure true
  settle_unless matured market loan false =
      if matured then try_settle_matured market loan else pure false

  unfoldable pub try_settle_or_liquidate : MarketView → LoanView → Bool → Bool → Action Bool
  try_settle_or_liquidate market loan matured true = do
    liquidated ← try_liquidate_ltv market loan
    settle_unless matured market loan liquidated
  try_settle_or_liquidate market loan matured false =
      if matured then try_settle_matured market loan else pure false

  abbrev loan_key : LoanView → Key
  loan_key loan = 3 ∷ loan.address ∷ []

  -- The body of the loop over the loans of a market.
  unfoldable pub visit_loan : MarketView → ℤ → ℤ → LoanView → Action ℕ
  visit_loan market t_now grace loan =
      if not (loan.state == env.loan_state_active)
        || loan.outstanding_debt_atoms == 0
        || not (is_matured t_now loan grace) && not (maybe_ltv_breach env loan)
      then pure 0
      else guarded (loan_key loan) (
          try_settle_or_liquidate market loan (is_matured t_now loan grace)
            (maybe_ltv_breach env loan))

  unfoldable pub scan_market : MarketView → Action ℕ
  scan_market market = do
    loans ← ChainReader.list_loans_for_market env ctx.rpc market.address
    t_now ← now_unix env
    for_sum
        (visit_loan market t_now (effective_grace market ctx.cfg.thresholds.maturity_extra_buffer))
        loans

  -- The body of the loop over the markets: an error is logged.
  abbrev pub counted_scan : Result ℕ → Action ℕ
  counted_scan panicked = panic
  counted_scan r = pure (count_of r)

  unfoldable pub visit_market : MarketView → Action ℕ
  visit_market market =
      if market.is_paused then pure 0 else (attempt (scan_market market) >>= counted_scan)

  unfoldable pub tick : Action (Unit {0})
  tick = do markets ← ChainReader.list_markets env ctx.rpc; for_sum visit_market markets; pure tt
