-- ===== src/System/Env.antt =====
-- The outside world. Every call that leaves the process is recorded in a history, newest first, and
-- its answer is an arbitrary function of that history: the environment may answer the same call
-- differently each time. `Env` holds these functions, and the pure functions and constants of the
-- crates that the sources only call (ydelta, hypertree, solana, base64, bytemuck).
use y_delta_crankers.Base.{ℕ, List, Option, Bool}
use y_delta_crankers.Base.Int.{ℤ}
use y_delta_crankers.System.Types.{
  Pubkey, Signature, Keypair, Lut, Account, Instruction, Label, Message, ClientError,
}

-- A reply of the RPC client.
pub data Reply {ℓ} (A : Type ℓ) : Type ℓ where
  reply : A → Reply A
  refused : ClientError → Reply A

-- What `simulateTransaction` returns: an error or none, and the logs.
pub record SimValue : Type 0 where
  pub failed : Bool
  pub logs : List (List ℕ)

-- The status of a signature that the cluster knows; `failed` is its `err` field.
pub record TxStatus : Type 0 where
  pub failed : Bool

-- A filter of `getProgramAccounts`.
pub data Filter : Type 0 where
  data_size : ℕ → Filter
  memcmp : ℕ → List ℕ → Filter

-- An entry of the history.
pub data Event : Type 0 where
  asked_account : Pubkey → Event
  asked_accounts : List Pubkey → Event
  asked_program_accounts : List Filter → Event
  asked_blockhash : Event
  asked_statuses : List Signature → Event
  asked_balance : Pubkey → Event
  asked_time : Event
  asked_instant : Event
  asked_stop : Event
  asked_gateway : List Pubkey → ℕ → Event
  asked_slot : Event
  asked_queue : Pubkey → Event
  asked_gateways : ℕ → Event
  -- whether the simulation passed
  simulated : Message → Bool → Event
  -- the signature sent, and whether it was confirmed
  sent : Message → Signature → Bool → Event
  -- the submission counter: label, and whether it ended well
  counted : Label → Bool → Event
  slept : ℕ → Event

abbrev pub History : Type 0
History = List Event

-- `MarketFixed`, as far as the sources read it.
pub record MarketFixed : Type 0 where
  pub discriminator : ℕ
  pub debt_mint : Pubkey
  pub collateral_mint : Pubkey
  pub debt_lending_pool : Pubkey
  pub collateral_lending_pool : Pubkey
  pub is_paused : ℕ
  pub admin : Pubkey
  pub grace_period_seconds : ℕ
  pub liquidation_keeper_bps : ℕ
  pub liquidation_protocol_bps : ℕ
  pub matched_loans_root_index : ℕ
  pub claimed_seats_root_index : ℕ
  pub asks_root_index : ℕ
  pub asks_best_index : ℕ
  pub bids_best_index : ℕ

pub record LoanFixed : Type 0 where
  pub discriminator : ℕ
  pub market : Pubkey
  pub state : ℕ
  pub loan_type : ℕ
  pub principal_debt_atoms : ℕ
  pub outstanding_debt_atoms : ℕ
  pub matures_at_unix : ℤ
  pub matched_loan_sequence : ℕ
  pub lender_kind : ℕ
  pub lender_global_vault : Pubkey
  pub lender_sub_vault_id : ℕ
  pub borrower_rate_bps : ℕ
  pub lender_rate_bps : ℕ

pub record MatchedLoan : Type 0 where
  pub sequence : ℕ
  pub flags : ℕ
  pub loan_type : ℕ
  pub lender_seat_index : ℕ
  pub borrower_seat_index : ℕ
  pub principal_atoms : ℕ
  pub origination_atoms : ℕ

pub record ClaimedSeat : Type 0 where
  pub owner : Pubkey
  pub owner_kind : ℕ
  pub sub_vault_id : ℕ
  pub debt_withdrawable_shares : ℕ

pub record RestingOrder : Type 0 where
  pub sequence_number : ℕ
  pub side : ℕ
  pub rate_bps : ℕ
  pub term_seconds : ℕ
  pub principal_atoms : ℕ
  pub trader_seat_index : ℕ

pub record GlobalVaultFixed : Type 0 where
  pub discriminator : ℕ
  pub mint : Pubkey
  pub lending_pool : Pubkey
  pub is_paused : ℕ
  pub sub_vaults_root_index : ℕ

pub record SubVault : Type 0 where
  pub sub_vault_id : ℕ
  pub curator : Pubkey
  pub accumulated_curator_fee_atoms : ℕ
  pub pending_claim_atoms : ℕ
  pub is_sunset : ℕ

pub record Env : Type 0 where
  -- the RPC node, the clocks, the stop flag and the gateways
  pub get_account : History → Pubkey → Reply Account
  pub get_multiple_accounts : History → List Pubkey → Reply (List (Option Account))
  pub get_program_accounts : History → List Filter → Reply (List (Pubkey × Account))
  pub get_latest_blockhash : History → Reply ℕ
  pub get_signature_statuses : History → List Signature → Reply (List (Option TxStatus))
  pub simulate_transaction : History → Message → Reply SimValue
  pub send_and_confirm : History → Message → Signature → Reply Signature
  pub get_balance : History → Pubkey → Reply ℕ
  pub get_slot : History → Reply ℕ
  -- seconds since the epoch, or none if the clock stands before it
  pub system_time : History → Option ℕ
  -- milliseconds of the monotonic clock
  pub instant : History → ℕ
  pub stop_flag : History → Bool
  pub fetch_update_consensus : History → List Pubkey → ℕ → Option (List Instruction × List Lut)
  -- `QueueAccountData::load`, and the gateways of a queue
  pub load_queue : History → Pubkey → Option ℕ
  pub fetch_gateways : History → ℕ → Option (List ℕ)
  -- keys, signing and message compilation
  pub pubkey_of : Keypair → Pubkey
  pub sign : Message → List Keypair → Option (List Signature)
  pub compiles : Message → Bool
  pub find_program_address : List (List ℕ) → Pubkey → Pubkey
  pub create_program_address : List (List ℕ) → Pubkey → Option Pubkey
  pub key_bytes : Pubkey → List ℕ
  pub base64_decode : List ℕ → Option (List ℕ)
  -- the layouts and constants of the program crate
  pub market_fixed_size : ℕ
  pub loan_fixed_size : ℕ
  pub global_vault_fixed_size : ℕ
  pub market_fixed_discriminant : ℕ
  pub loan_fixed_discriminant : ℕ
  pub global_vault_fixed_discriminant : ℕ
  pub market_fixed : List ℕ → MarketFixed
  pub loan_fixed : List ℕ → LoanFixed
  pub global_vault_fixed : List ℕ → Option GlobalVaultFixed
  pub nil_index : ℕ
  pub matched_loans : List ℕ → ℕ → List MatchedLoan
  pub claimed_seats : List ℕ → ℕ → List ClaimedSeat
  pub book_orders : List ℕ → ℕ → ℕ → List RestingOrder
  pub sub_vaults : List ℕ → ℕ → List SubVault
  -- the seat and the order at an index; none where the read panics
  pub helper_seat : List ℕ → ℕ → Option ClaimedSeat
  pub helper_order : List ℕ → ℕ → Option RestingOrder
  pub loan_state_active : ℕ
  pub loan_state_repaid : ℕ
  pub loan_type_p2pool : ℕ
  pub owner_kind_sub_vault : ℕ
  pub flag_vault_lender : ℕ
  pub flag_vault_presettled : ℕ
  pub match_crank_log_discriminant : List ℕ
  pub global_vault_pda : Pubkey → Pubkey
  pub global_vault_signer_pda : Pubkey → Pubkey
  pub global_vault_staging_pda : Pubkey → Pubkey
  pub global_vault_integration_account_pda : Pubkey → Pubkey
  pub vault_address : Pubkey → Pubkey → Pubkey
  pub lender_integration_account_address : Pubkey → Pubkey
  pub market_signer_address : Pubkey → Pubkey
