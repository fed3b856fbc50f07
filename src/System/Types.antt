-- ===== src/System/Types.antt =====
-- The values that the modules of the program exchange: keys, accounts, instructions, transactions,
-- the views of chain state (chain_reader.rs) and the errors. A public key is the number whose
-- big-endian bytes it is, so the order of keys is the order of their bytes and the default key is
-- 0. An instruction is represented by the call of the builder that makes it, with all its
-- arguments; what the builders of the program crate put into it is not looked at.
use y_delta_crankers.Base.{ℕ, List, Option, Bool}
use y_delta_crankers.Base.Int.{ℤ}

abbrev pub Pubkey : Type 0
Pubkey = ℕ

abbrev pub Signature : Type 0
Signature = ℕ

-- A secret key; `Env.pubkey_of` gives its public key.
abbrev pub Keypair : Type 0
Keypair = ℕ

-- An address lookup table, by its key.
abbrev pub Lut : Type 0
Lut = ℕ

pub record Account : Type 0 where
  pub owner : Pubkey
  pub bytes : List ℕ

pub record MarketView : Type 0 where
  pub address : Pubkey
  pub debt_mint : Pubkey
  pub collateral_mint : Pubkey
  pub debt_bank : Pubkey
  pub collateral_bank : Pubkey
  pub is_paused : Bool
  pub admin : Pubkey
  pub grace_period_seconds : ℕ
  pub liquidation_keeper_bps : ℕ
  pub liquidation_protocol_bps : ℕ

pub record LoanView : Type 0 where
  pub address : Pubkey
  pub market : Pubkey
  pub state : ℕ
  pub loan_type : ℕ
  pub principal_debt_atoms : ℕ
  pub outstanding_debt_atoms : ℕ
  pub matures_at_unix : ℤ
  pub matched_loan_sequence : ℕ
  pub lender_kind : ℕ
  pub lender_global_vault : Pubkey
  pub lender_sub_vault_id : ℕ
  pub borrower_rate_bps : ℕ
  pub lender_rate_bps : ℕ

pub record PendingMatchedLoan : Type 0 where
  pub market : Pubkey
  pub sequence : ℕ
  pub flags : ℕ
  pub loan_type : ℕ
  pub lender_seat_index : ℕ
  pub borrower_seat_index : ℕ
  pub principal_atoms : ℕ
  pub origination_atoms : ℕ

pub record SeatView : Type 0 where
  pub owner : Pubkey
  pub owner_kind : ℕ
  pub sub_vault_id : ℕ

pub record SubVaultView : Type 0 where
  pub vault : Pubkey
  pub vault_mint : Pubkey
  pub vault_bank : Pubkey
  pub sub_vault_id : ℕ
  pub curator : Pubkey
  pub accumulated_curator_fee_atoms : ℕ
  pub vault_is_paused : Bool
  pub pending_claim_atoms : ℕ
  pub is_sunset : Bool

pub record PendingVaultClaim : Type 0 where
  pub market : Pubkey
  pub debt_mint : Pubkey
  pub debt_bank : Pubkey
  pub lender_global_vault : Pubkey
  pub sub_vault_id : ℕ
  pub debt_withdrawable_shares : ℕ

pub record OrderView : Type 0 where
  pub sequence : ℕ
  pub side : ℕ
  pub rate_bps : ℕ
  pub term_seconds : ℕ
  pub principal_atoms : ℕ
  pub owner : Pubkey
  pub owner_kind : ℕ
  pub sub_vault_id : ℕ

-- bank_registry.rs
pub record BankInfo : Type 0 where
  pub mint : Pubkey
  pub bank : Pubkey
  pub liquidity_vault : Pubkey
  pub liquidity_vault_authority : Pubkey
  pub oracles : List Pubkey
  pub token_program : Pubkey
  pub oracle_setup : ℕ

-- The accounts that a vault-funded promotion adds.
pub record VaultSettleAddrs : Type 0 where
  pub global_vault : Pubkey
  pub global_vault_signer : Pubkey
  pub global_vault_staging : Pubkey
  pub global_vault_integration_account : Pubkey
  pub market_debt_vault : Pubkey
  pub market_lender_integration_account : Pubkey
  pub market_signer : Pubkey
  pub debt_liquidity_vault : Pubkey
  pub debt_bank_liquidity_vault_authority : Pubkey
  pub debt_oracles : List Pubkey
  pub debt_mint : Pubkey
  pub token_program : Pubkey
  pub marginfi_group : Pubkey
  pub marginfi_program : Pubkey

-- The arguments of the builders of tags 16 and 17, in their order.
pub record RepayArgs : Type 0 where
  pub market : Pubkey
  pub payer : Pubkey
  pub sequence : ℕ
  pub debt_mint : Pubkey
  pub collateral_mint : Pubkey
  pub liquidator_debt_ata : Pubkey
  pub liquidator_collateral_ata : Pubkey
  pub debt_bank : Pubkey
  pub collateral_bank : Pubkey
  pub debt_liquidity_vault : Pubkey
  pub collateral_liquidity_vault : Pubkey
  pub collateral_liquidity_vault_authority : Pubkey
  pub debt_oracles : List Pubkey
  pub collateral_oracles : List Pubkey
  pub token_program : Pubkey
  pub marginfi_group : Pubkey
  pub marginfi_program : Pubkey
  pub repay_atoms_max : ℕ
  pub liquidator : Pubkey
  pub global_vault : Option Pubkey

pub record ClaimRepaymentArgs : Type 0 where
  pub payer : Pubkey
  pub market : Pubkey
  pub sub_vault_id : ℕ
  pub global_vault : Pubkey
  pub debt_mint : Pubkey
  pub bank : Pubkey
  pub liquidity_vault : Pubkey
  pub liquidity_vault_authority : Pubkey
  pub oracles : List Pubkey
  pub lender_marginfi : Pubkey
  pub token_program : Pubkey
  pub marginfi_group : Pubkey
  pub marginfi_program : Pubkey

pub record ClaimCuratorFeeArgs : Type 0 where
  pub vault_bank : Pubkey
  pub vault_mint : Pubkey
  pub curator : Pubkey
  pub curator_token : Pubkey
  pub bank : Pubkey
  pub liquidity_vault : Pubkey
  pub liquidity_vault_authority : Pubkey
  pub oracle : Pubkey
  pub token_program : Pubkey
  pub marginfi_program : Pubkey
  pub marginfi_group : Pubkey
  pub sub_vault_id : ℕ

pub record MatchCrankArgs : Type 0 where
  pub bank : Pubkey
  pub market : Pubkey
  pub payer : Pubkey
  pub debt_bank : Pubkey
  pub marginfi_group : Pubkey
  pub collateral_bank : Pubkey
  pub debt_oracles : List Pubkey
  pub collateral_oracles : List Pubkey
  pub max_fills : ℕ

pub record AccountMeta : Type 0 where
  pub key : Pubkey
  pub is_signer : Bool
  pub is_writable : Bool

pub data Instruction : Type 0 where
  set_compute_unit_limit : ℕ → Instruction
  set_compute_unit_price : ℕ → Instruction
  -- an instruction of a Switchboard gateway
  swb_update : ℕ → Instruction
  -- market, payer, debt bank, marginfi program, sequence, vault bundle
  process_matched_loan :
      Pubkey → Pubkey → Pubkey → Pubkey → ℕ → Option VaultSettleAddrs → Instruction
  -- market, payer, sequence, debt bank, marginfi program
  check_maturity_liquidatable : Pubkey → Pubkey → ℕ → Pubkey → Pubkey → Instruction
  -- market, payer, sequence, debt bank, collateral bank, their oracles, marginfi program
  check_ltv_liquidatable :
      Pubkey → Pubkey → ℕ → Pubkey → Pubkey → List Pubkey → List Pubkey → Pubkey → Instruction
  settle_matured_loan : RepayArgs → Instruction
  liquidate_loan : RepayArgs → Instruction
  claim_repayment_for_sub_vault : ClaimRepaymentArgs → Instruction
  claim_curator_fee : ClaimCuratorFeeArgs → Instruction
  match_crank : MatchCrankArgs → Instruction
  -- one that the program lays out itself: program, accounts, payload
  raw : Pubkey → List AccountMeta → List ℕ → Instruction

-- The labels of the submission counter.
pub data Label : Type 0 where
  untagged label_promote label_settle label_liquidate label_claim : Label
  label_curator_fee label_match_crank label_create_atas : Label

-- A message to simulate or to sign; a legacy transaction has no lookup tables.
pub record Message : Type 0 where
  pub payer : Pubkey
  pub ixs : List Instruction
  pub luts : List Lut
  pub blockhash : ℕ

-- `RpcError` and `ClientErrorKind` of the client crate, as far as `is_transient` tells them apart.
pub data RpcErrorKind : Type 0 where
  for_user : List ℕ → RpcErrorKind
  rpc_response_error : ℤ → RpcErrorKind
  other_rpc : RpcErrorKind

pub data ClientErrorKind : Type 0 where
  io reqwest other_kind : ClientErrorKind
  rpc_error : RpcErrorKind → ClientErrorKind

-- An error of the client, with the text that it displays.
pub record ClientError : Type 0 where
  pub kind : ClientErrorKind
  pub text : List ℕ

-- The errors of the program, a constructor for each message.
pub data Error : Type 0 where
  client : ClientError → Error
  no_signers shutdown no_signature compile_failed signing_failed : Error
  send_failed : ClientError → Error
  no_debt_bank no_collateral_bank no_vault_bank : Pubkey → Error
  market_not_found market_disappeared : Pubkey → Error
  market_too_small market_discriminator loan_too_small loan_discriminator : Error
  seat_index_nil ata_too_small : Error
  vault_mismatch : Pubkey → Pubkey → Error
  vault_bank_disagrees : Pubkey → Pubkey → Error
  gateways_failed gateway_failed no_gateways queue_failed gateways_unavailable : Error
  bad_bind : List ℕ → Error
  exporter_failed : Error
  bank_conflict : Pubkey → Pubkey → Pubkey → Pubkey → Error
  bank_too_small bank_discriminator : Error
  bank_not_found bank_wrong_owner bank_wrong_mint : Pubkey → Error
  lva_derivation mint_not_found mint_wrong_owner bad_oracle_count : Pubkey → Error
  missing_var bad_bool bad_number bad_network invalid_pubkey : List ℕ → Error
  two_fee_payers no_fee_payer bad_curators_json : Error
  stat_failed unreadable bad_keypair_json bad_keypair_file : List ℕ → Error
  too_permissive : List ℕ → ℕ → Error
  bad_base58 bad_keypair_bytes no_curators : Error
  bad_base58_length : ℕ → Error
  fee_payer_mismatch : Pubkey → Pubkey → Error
  -- the position in `CURATOR_KEYPAIRS_JSON`, as context
  bad_curator : ℕ → Error → Error
