-- ===== src/Handlers/MatchCranker.antt =====
-- src/handlers/match_cranker.rs: markets whose best rates cross are cranked, if the simulation's
-- logs do not report that nothing would be filled.
pub mod Logs
pub mod Fills
pub mod Gate
pub mod Cranks
use y_delta_crankers.Base.{
  ℕ, zero, suc, ◌==◌, Bool, true, false, not, List, [], ◌∷◌, ◌++◌, Option, none, some,
  if◌then◌else◌,
}
use y_delta_crankers.System.Types.{
  Pubkey, Instruction, Lut, BankInfo, MarketView, match_crank, label_match_crank, no_debt_bank,
  no_collateral_bank,
}
use y_delta_crankers.System.Env.{Env}
use y_delta_crankers.System.Action.{
  Action, Result, ok, err, panicked, Key, pure, panic, attempt, for_sum, guarded, claim_inflight,
  release_inflight, of_result, tally, ◌>>=◌, ◌>>◌,
}
use y_delta_crankers.Rpc
use y_delta_crankers.ChainReader
use y_delta_crankers.BankRegistry.{is_switchboard_pull, primary_oracle}
use y_delta_crankers.SwbCranker.{SwbCranker, Bundle, fetch_update_ixs}
use y_delta_crankers.Handlers.Context.{HandlerContext, banks_snapshot, bank_for}
use y_delta_crankers.Handlers.Liquidator.{or_empty}
use Logs.{parse_match_crank_fills}

-- The feeds of the pull-feed banks of a pair.
unfoldable pub pull_feeds : BankInfo → BankInfo → List Pubkey
pull_feeds debt_bank collateral_bank =
    (if is_switchboard_pull debt_bank then primary_oracle debt_bank ∷ [] else [])
    ++ (if is_switchboard_pull collateral_bank then primary_oracle collateral_bank ∷ [] else [])

-- Whether the crank is worth submitting: not if the logs report zero fills. Logs without a record
-- count as productive.
unfoldable pub is_productive : Option ℕ → Bool
is_productive none = true
is_productive (some fills) = not (fills == 0)

module _ (env : Env) (ctx : HandlerContext) where
  abbrev pub payer_pk : Pubkey
  payer_pk = env.pubkey_of ctx.signers.fee_payer

  abbrev pub bundle_for : List Pubkey → SwbCranker → Action Bundle
  bundle_for [] cranker = pure ([], [])
  bundle_for (feed ∷ feeds) cranker = do
    r ← attempt (fetch_update_ixs env cranker (feed ∷ feeds))
    or_empty r

  abbrev pub bundle_from : List Pubkey → Option SwbCranker → Action Bundle
  bundle_from feeds none = pure ([], [])
  bundle_from feeds (some cranker) = bundle_for feeds cranker

  unfoldable pub fetch_swb_bundle : BankInfo → BankInfo → Action Bundle
  fetch_swb_bundle debt_bank collateral_bank =
      bundle_from (pull_feeds debt_bank collateral_bank) ctx.swb_cranker

  unfoldable pub crank_ix : MarketView → BankInfo → BankInfo → Instruction
  crank_ix market debt_bank collateral_bank = match_crank (record {
    bank = debt_bank.bank;
    market = market.address;
    payer = payer_pk;
    debt_bank = debt_bank.bank;
    marginfi_group = ctx.cfg.marginfi_group;
    collateral_bank = collateral_bank.bank;
    debt_oracles = debt_bank.oracles;
    collateral_oracles = collateral_bank.oracles;
    max_fills = ctx.cfg.handlers.match_cranker_max_fills;
  })

  -- The simulation, its two gates, and the submission of the same bundle.
  unfoldable pub crank_bundle : List Instruction → List Lut → Action Bool
  crank_bundle bundle luts = do
    sim ← Rpc.simulate_v0 env ctx.rpc bundle luts payer_pk
    if not sim.is_ok
        then pure false
        else (if is_productive (parse_match_crank_fills env sim.logs)
            then (Rpc.send_signed_v0_labeled env ctx.rpc label_match_crank bundle luts
                  (ctx.signers.fee_payer ∷ [])
                >> pure true)
            else pure false)

  unfoldable pub crank_one : MarketView → Action Bool
  crank_one market = do
    banks ← banks_snapshot
    debt_bank ← bank_for banks market.debt_mint (no_debt_bank market.debt_mint)
    collateral_bank ←
        bank_for banks market.collateral_mint (no_collateral_bank market.collateral_mint)
    swb ← fetch_swb_bundle debt_bank collateral_bank
    crank_bundle (swb.0 ++ crank_ix market debt_bank collateral_bank ∷ []) swb.1

  abbrev pub market_key : MarketView → Key
  market_key market = 5 ∷ market.address ∷ []

  abbrev pub crank_claimed : MarketView → Bool → Action Bool
  crank_claimed market true = do
    res ← attempt (crank_one market)
    release_inflight (market_key market)
    of_result res
  crank_claimed market false = pure false

  unfoldable pub scan_market : MarketView → Action Bool
  scan_market market = do
    crossed ← ChainReader.market_is_rate_crossed env ctx.rpc market.address
    if not crossed
        then pure false
        else (claim_inflight (market_key market) >>= crank_claimed market)

  abbrev pub counted_scan : Result Bool → Action ℕ
  counted_scan panicked = panic
  counted_scan r = pure (tally r)

  unfoldable pub visit_market : MarketView → Action ℕ
  visit_market market =
      if market.is_paused then pure 0 else (attempt (scan_market market) >>= counted_scan)

  unfoldable pub tick : Action (Unit {0})
  tick = do markets ← ChainReader.list_markets env ctx.rpc; for_sum visit_market markets; pure tt
