-- ===== src/Handlers/Claimer.antt =====
-- src/handlers/claimer.rs: the sub-vaults' realized repayments are swept from the markets that hold
-- their shares.
pub mod Gate
pub mod Sweeps
use y_delta_crankers.Base.{
  ℕ, ltb, ◌==◌, Bool, true, false, not, ◌&&◌, ◌||◌, List, [], ◌∷◌, Option, none, some, is_empty,
  select, if◌then◌else◌,
}
use y_delta_crankers.System.Types.{
  Pubkey, BankInfo, MarketView, SubVaultView, PendingVaultClaim, ClaimRepaymentArgs, Instruction,
  claim_repayment_for_sub_vault, label_claim, no_debt_bank,
}
use y_delta_crankers.System.Env.{Env}
use y_delta_crankers.System.Action.{Action, Key, pure, for_sum, guarded, ◌>>=◌, ◌>>◌}
use y_delta_crankers.Rpc
use y_delta_crankers.ChainReader
use y_delta_crankers.Handlers.Context.{HandlerContext, banks_snapshot, bank_for}

-- The sub-vaults with atoms to claim, as pairs of vault and id.
unfoldable pub claimable : List SubVaultView → List (Pubkey × ℕ)
claimable [] = []
claimable (p ∷ ps) =
    if ltb 0 p.pending_claim_atoms then (p.vault, p.sub_vault_id) ∷ claimable ps else claimable ps

unfoldable pub contains_pair : List (Pubkey × ℕ) → Pubkey → ℕ → Bool
contains_pair [] vault id = false
contains_pair ((v, i) ∷ rest) vault id = v == vault && i == id || contains_pair rest vault id

unfoldable pub claimable_entries :
    List (Pubkey × ℕ) → List PendingVaultClaim → List PendingVaultClaim
claimable_entries pairs entries =
    select (λ e. contains_pair pairs e.lender_global_vault e.sub_vault_id) entries

module _ (env : Env) (ctx : HandlerContext) where
  abbrev pub payer_pk : Pubkey
  payer_pk = env.pubkey_of ctx.signers.fee_payer

  unfoldable pub claim_ix : PendingVaultClaim → BankInfo → Instruction
  claim_ix entry debt_bank = claim_repayment_for_sub_vault (record {
    payer = payer_pk;
    market = entry.market;
    sub_vault_id = entry.sub_vault_id;
    global_vault = entry.lender_global_vault;
    debt_mint = entry.debt_mint;
    bank = debt_bank.bank;
    liquidity_vault = debt_bank.liquidity_vault;
    liquidity_vault_authority = debt_bank.liquidity_vault_authority;
    oracles = debt_bank.oracles;
    lender_marginfi = env.lender_integration_account_address entry.market;
    token_program = debt_bank.token_program;
    marginfi_group = ctx.cfg.marginfi_group;
    marginfi_program = ctx.cfg.marginfi_program_id;
  })

  unfoldable pub sweep_one : PendingVaultClaim → Action Bool
  sweep_one entry = do
    banks ← banks_snapshot
    debt_bank ← bank_for banks entry.debt_mint (no_debt_bank entry.debt_mint)
    sim ← Rpc.simulate env ctx.rpc (claim_ix entry debt_bank ∷ []) payer_pk
    if not sim.is_ok
        then pure false
        else (Rpc.send_signed_labeled env ctx.rpc label_claim (claim_ix entry debt_bank ∷ [])
              (ctx.signers.fee_payer ∷ [])
            >> pure true)

  abbrev pub claim_key : PendingVaultClaim → Key
  claim_key entry = 2 ∷ entry.market ∷ entry.lender_global_vault ∷ entry.sub_vault_id ∷ []

  unfoldable pub sweep_all : List PendingVaultClaim → Action (Unit {0})
  sweep_all pending = do
    for_sum (λ entry. guarded (claim_key entry) (sweep_one entry)) pending
    pure tt

  -- With no market there is nothing to scan.
  unfoldable pub sweep_markets : List (Pubkey × ℕ) → List MarketView → Action (Unit {0})
  sweep_markets pairs [] = pure tt
  sweep_markets pairs (m ∷ ms) = do
    pending ← ChainReader.list_pending_vault_claims env ctx.rpc (m ∷ ms)
    sweep_all (claimable_entries pairs pending)

  unfoldable pub sweep_claimable : List (Pubkey × ℕ) → Action (Unit {0})
  sweep_claimable [] = pure tt
  sweep_claimable (p ∷ ps) = do
    markets ← ChainReader.list_markets env ctx.rpc
    sweep_markets (p ∷ ps) markets

  unfoldable pub tick : Action (Unit {0})
  tick = do
    sub_vaults ← ChainReader.list_sub_vaults env ctx.rpc
    sweep_claimable (claimable sub_vaults)
