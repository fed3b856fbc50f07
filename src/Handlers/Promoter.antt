-- ===== src/Handlers/Promoter.antt =====
-- src/handlers/promoter.rs: the pending matched loans of every market are turned into loan
-- accounts.
pub mod Gate
pub mod Promotions
use y_delta_crankers.Base.{
  ℕ, suc, ◌==◌, Bool, true, false, not, ◌||◌, List, [], ◌∷◌, Option, none, some, if◌then◌else◌,
}
use Prim.Native.Nat.{bit_and}
use y_delta_crankers.System.Types.{
  Pubkey, BankInfo, Instruction, MarketView, PendingMatchedLoan, SeatView, VaultSettleAddrs,
  process_matched_loan, label_promote, no_debt_bank, market_disappeared, vault_mismatch,
}
use y_delta_crankers.System.Env.{Env}
use y_delta_crankers.System.Action.{
  Action, Result, ok, err, panicked, Key, pure, fail, panic, or_fail, attempt, for_sum, guarded,
  ◌>>=◌, ◌>>◌,
}
use y_delta_crankers.Rpc
use y_delta_crankers.ChainReader
use y_delta_crankers.BankRegistry.{primary_oracle}
use y_delta_crankers.Handlers.Context.{HandlerContext, banks_snapshot, bank_for}

module _ (env : Env) where
  unfoldable pub is_p2pool : PendingMatchedLoan → Bool
  is_p2pool entry = entry.loan_type == env.loan_type_p2pool

  unfoldable pub has_vault_lender : PendingMatchedLoan → Bool
  has_vault_lender entry = not (bit_and entry.flags env.flag_vault_lender == 0)

  unfoldable pub is_vault_presettled : PendingMatchedLoan → Bool
  is_vault_presettled entry = not (bit_and entry.flags env.flag_vault_presettled == 0)

module _ (env : Env) (ctx : HandlerContext) where
  abbrev pub payer_pk : Pubkey
  payer_pk = env.pubkey_of ctx.signers.fee_payer

  unfoldable pub vault_settle_addrs : Pubkey → Pubkey → Pubkey → BankInfo → VaultSettleAddrs
  vault_settle_addrs market global_vault debt_mint debt_bank = record {
    global_vault = global_vault;
    global_vault_signer = env.global_vault_signer_pda global_vault;
    global_vault_staging = env.global_vault_staging_pda global_vault;
    global_vault_integration_account = env.global_vault_integration_account_pda global_vault;
    market_debt_vault = env.vault_address market debt_mint;
    market_lender_integration_account = env.lender_integration_account_address market;
    market_signer = env.market_signer_address market;
    debt_liquidity_vault = debt_bank.liquidity_vault;
    debt_bank_liquidity_vault_authority = debt_bank.liquidity_vault_authority;
    debt_oracles = primary_oracle debt_bank ∷ [];
    debt_mint = debt_mint;
    token_program = debt_bank.token_program;
    marginfi_group = ctx.cfg.marginfi_group;
    marginfi_program = ctx.cfg.marginfi_program_id;
  }

  unfoldable pub build_vault_settle_addrs :
      Pubkey → Pubkey → Pubkey → BankInfo → Action (Option VaultSettleAddrs)
  build_vault_settle_addrs market global_vault debt_mint debt_bank =
      if not (env.global_vault_pda debt_bank.bank == global_vault)
      then fail (vault_mismatch global_vault debt_bank.bank)
      else pure (some (vault_settle_addrs market global_vault debt_mint debt_bank))

  -- A seat that no sub-vault owns makes no bundle.
  abbrev pub settle_for_seat :
      Pubkey → Pubkey → BankInfo → SeatView → Action (Option VaultSettleAddrs)
  settle_for_seat market debt_mint debt_bank seat =
      if not (seat.owner_kind == env.owner_kind_sub_vault)
      then pure none
      else build_vault_settle_addrs market seat.owner debt_mint debt_bank

  -- The lender's seat, from a fresh read of the market.
  unfoldable pub lender_seat : Pubkey → PendingMatchedLoan → Action SeatView
  lender_seat market entry = do
    bytes ← Rpc.get_account_data env ctx.rpc market
    market_data ← or_fail bytes (market_disappeared market)
    ChainReader.read_seat_at env ctx.rpc market_data entry.lender_seat_index

  unfoldable pub needs_vault_settle : PendingMatchedLoan → Bool
  needs_vault_settle entry =
      not (is_p2pool env entry || is_vault_presettled env entry || not (has_vault_lender env entry))

  unfoldable pub assemble_vault_settle :
      Pubkey → PendingMatchedLoan → Pubkey → BankInfo → Action (Option VaultSettleAddrs)
  assemble_vault_settle market entry debt_mint debt_bank =
      if needs_vault_settle entry
      then (lender_seat market entry >>= settle_for_seat market debt_mint debt_bank)
      else pure none

  unfoldable pub promote_ix :
      MarketView → PendingMatchedLoan → BankInfo → Option VaultSettleAddrs → Instruction
  promote_ix market entry debt_bank vault_settle =
      process_matched_loan market.address payer_pk debt_bank.bank ctx.cfg.marginfi_program_id
        entry.sequence vault_settle

  unfoldable pub promote_one : MarketView → PendingMatchedLoan → Action Bool
  promote_one market entry = do
    banks ← banks_snapshot
    debt_bank ← bank_for banks market.debt_mint (no_debt_bank market.debt_mint)
    vault_settle ← assemble_vault_settle market.address entry market.debt_mint debt_bank
    sim ← Rpc.simulate env ctx.rpc (promote_ix market entry debt_bank vault_settle ∷ []) payer_pk
    if not sim.is_ok
        then pure false
        else (Rpc.send_signed_labeled env ctx.rpc label_promote
              (promote_ix market entry debt_bank vault_settle ∷ []) (ctx.signers.fee_payer ∷ [])
            >> pure true)

  abbrev pub entry_key : PendingMatchedLoan → Key
  entry_key entry = 1 ∷ entry.market ∷ entry.sequence ∷ []

  -- The loop over the queue of a market, if it could be read.
  abbrev pub promote_all : MarketView → Result (List PendingMatchedLoan) → Action ℕ
  promote_all market (ok pending) =
      for_sum (λ entry. guarded (entry_key entry) (promote_one market entry)) pending
  promote_all market (err e) = pure 0
  promote_all market panicked = panic

  unfoldable pub visit_market : MarketView → Action ℕ
  visit_market market =
      if market.is_paused
      then pure 0
      else (attempt (ChainReader.read_pending_matched_loans env ctx.rpc market.address)
          >>= promote_all market)

  unfoldable pub tick : Action (Unit {0})
  tick = do markets ← ChainReader.list_markets env ctx.rpc; for_sum visit_market markets; pure tt
