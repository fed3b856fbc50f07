-- ===== src/Handlers/CuratorFeeClaimer.antt =====
-- src/handlers/curator_fee_claimer.rs: accumulated curator fees are claimed, signed by the
-- curators.
pub mod Claims
use y_delta_crankers.Base.{
  ℕ, ltb, ◌==◌, Bool, true, not, [], ◌∷◌, Option, none, some, Map, lookup, is_empty, if◌then◌else◌,
}
use y_delta_crankers.System.Types.{
  Pubkey, Keypair, BankInfo, SubVaultView, Instruction, claim_curator_fee, label_curator_fee,
  no_vault_bank, vault_bank_disagrees,
}
use y_delta_crankers.System.Env.{Env}
use y_delta_crankers.System.Action.{Action, Key, pure, fail, for_sum, guarded, ◌>>=◌, ◌>>◌}
use y_delta_crankers.Rpc
use y_delta_crankers.ChainReader
use y_delta_crankers.BankRegistry.{ata_for, primary_oracle}
use y_delta_crankers.Handlers.Context.{HandlerContext, banks_snapshot, bank_for}

module _ (env : Env) (ctx : HandlerContext) where
  unfoldable pub fee_ix : SubVaultView → BankInfo → Pubkey → Instruction
  fee_ix sub_vault bank curator_pk = claim_curator_fee (record {
    vault_bank = sub_vault.vault_bank;
    vault_mint = sub_vault.vault_mint;
    curator = curator_pk;
    curator_token = ata_for env bank curator_pk;
    bank = bank.bank;
    liquidity_vault = bank.liquidity_vault;
    liquidity_vault_authority = bank.liquidity_vault_authority;
    oracle = primary_oracle bank;
    token_program = bank.token_program;
    marginfi_program = ctx.cfg.marginfi_program_id;
    marginfi_group = ctx.cfg.marginfi_group;
    sub_vault_id = sub_vault.sub_vault_id;
  })

  unfoldable pub claim_one : SubVaultView → Map BankInfo → Keypair → Action Bool
  claim_one sub_vault banks signer = do
    bank ← bank_for banks sub_vault.vault_mint (no_vault_bank sub_vault.vault_mint)
    if not (bank.bank == sub_vault.vault_bank)
        then fail (vault_bank_disagrees sub_vault.vault_bank bank.bank)
        else (Rpc.send_signed_labeled env ctx.rpc label_curator_fee
              (fee_ix sub_vault bank (env.pubkey_of signer) ∷ []) (signer ∷ [])
            >> pure true)

  abbrev pub vault_key : SubVaultView → Key
  vault_key sub_vault = 4 ∷ sub_vault.vault ∷ sub_vault.sub_vault_id ∷ []

  -- A sub-vault whose curator's key is not held is skipped.
  abbrev pub claim_signed : SubVaultView → Map BankInfo → Option Keypair → Action ℕ
  claim_signed sub_vault banks none = pure 0
  claim_signed sub_vault banks (some signer) =
      guarded (vault_key sub_vault) (claim_one sub_vault banks signer)

  unfoldable pub visit_sub_vault : Map BankInfo → SubVaultView → Action ℕ
  visit_sub_vault banks sub_vault =
      if sub_vault.vault_is_paused
      then pure 0
      else if ltb sub_vault.accumulated_curator_fee_atoms
          ctx.cfg.thresholds.min_curator_fee_claim_atoms
      then pure 0
      else claim_signed sub_vault banks (lookup sub_vault.curator ctx.signers.curators)

  unfoldable pub visit_all : Action (Unit {0})
  visit_all = do
    sub_vaults ← ChainReader.list_sub_vaults env ctx.rpc
    banks ← banks_snapshot
    for_sum (visit_sub_vault banks) sub_vaults
    pure tt

  unfoldable pub tick : Action (Unit {0})
  tick = if is_empty ctx.signers.curators then pure tt else visit_all
