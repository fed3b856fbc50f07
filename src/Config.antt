-- ===== src/Config.antt =====
-- src/config.rs: the typed configuration and its defaults, the checks on the environment, and the
-- shared bank registry.
pub mod Vars
pub mod Load
pub mod Redact
pub mod Ranges
pub mod Debug
use y_delta_crankers.Base.{ℕ, Bool, List, Option}
use y_delta_crankers.System.Types.{Pubkey}
use y_delta_crankers.System.Host.{Text}

pub data KeypairSource : Type 0 where
  path base58 : Text → KeypairSource

pub data Network : Type 0 where
  localhost mainnet : Network

pub record HandlersConfig : Type 0 where
  pub promoter_enabled : Bool
  pub claimer_enabled : Bool
  pub liquidator_enabled : Bool
  pub curator_fee_claimer_enabled : Bool
  pub match_cranker_enabled : Bool
  -- intervals, in seconds
  pub promoter_interval : ℕ
  pub claimer_interval : ℕ
  pub liquidator_interval : ℕ
  pub curator_fee_claimer_interval : ℕ
  pub match_cranker_interval : ℕ
  pub match_cranker_max_fills : ℕ

pub record ThresholdsConfig : Type 0 where
  pub min_liquidation_profit_atoms : ℕ
  -- in seconds
  pub maturity_extra_buffer : ℕ
  pub min_curator_fee_claim_atoms : ℕ

-- The shared registry of banks stands in the state of the process.
pub record Config : Type 0 where
  pub network : Network
  pub rpc_url : Text
  pub program_id : Pubkey
  pub marginfi_program_id : Pubkey
  pub marginfi_group : Pubkey
  pub fee_payer_keypair : KeypairSource
  pub fee_payer_expected_pubkey : Option Pubkey
  pub handlers : HandlersConfig
  pub thresholds : ThresholdsConfig
  pub priority_fee_micro_lamports : ℕ
  pub compute_unit_limit : ℕ
  pub min_signer_balance_lamports : ℕ
  pub banks_refresh_interval : ℕ
  pub curator_keypairs_base58 : List Text
