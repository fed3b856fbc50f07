-- ===== src/Tests/World.antt =====
-- A small world for the tests: one market with an overdue loan, a pending matched loan, a sub-vault
-- with atoms to claim, crossed orders, and a cluster that accepts what it is given.
use y_delta_crankers.Base.{
  ℕ, suc, ◌+◌, true, false, List, [], ◌∷◌, ◌++◌, none, some, replicate, codes,
}
use y_delta_crankers.Base.Int.{pos}
use y_delta_crankers.System.Types.{MarketView, Pubkey, Account, BankInfo, io}
use y_delta_crankers.System.Env.{
  Env, Filter, data_size, memcmp, reply, refused, MarketFixed, LoanFixed, MatchedLoan, ClaimedSeat,
  RestingOrder, GlobalVaultFixed, SubVault,
}
use y_delta_crankers.System.Action.{State}
use y_delta_crankers.Config.{Config, localhost, base58}
use y_delta_crankers.Rpc.{Rpc}
use y_delta_crankers.Handlers.MatchCranker.Fills.{emitted}
use y_delta_crankers.Handlers.Context.{HandlerContext}

abbrev account : ℕ → Account
account d = record { owner = 1; bytes = d ∷ replicate 63 0 ++ 232 ∷ 3 ∷ replicate 90 0 }

abbrev accounts_for : List Filter → List (Pubkey × Account)
accounts_for (memcmp offset (d ∷ rest) ∷ []) = (500, account d) ∷ []
accounts_for (data_size n ∷ rest) = (700, account 2) ∷ []
accounts_for _ = []

abbrev market_header : MarketFixed
market_header = record {
  discriminator = 1;
  debt_mint = 10;
  collateral_mint = 20;
  debt_lending_pool = 11;
  collateral_lending_pool = 21;
  is_paused = 0;
  admin = 3;
  grace_period_seconds = 60;
  liquidation_keeper_bps = 100;
  liquidation_protocol_bps = 100;
  matched_loans_root_index = 0;
  claimed_seats_root_index = 0;
  asks_root_index = 0;
  asks_best_index = 0;
  bids_best_index = 0;
}

abbrev loan_header : LoanFixed
loan_header = record {
  discriminator = 2;
  market = 500;
  state = 1;
  loan_type = 0;
  principal_debt_atoms = 900;
  outstanding_debt_atoms = 900;
  matures_at_unix = pos 100;
  matched_loan_sequence = 4;
  lender_kind = 0;
  lender_global_vault = 0;
  lender_sub_vault_id = 0;
  borrower_rate_bps = 0;
  lender_rate_bps = 0;
}

abbrev vault_header : GlobalVaultFixed
vault_header = record {
  discriminator = 3;
  mint = 10;
  lending_pool = 11;
  is_paused = 0;
  sub_vaults_root_index = 0;
}

abbrev node : MatchedLoan
node = record {
  sequence = 6;
  flags = 0;
  loan_type = 0;
  lender_seat_index = 0;
  borrower_seat_index = 0;
  principal_atoms = 900;
  origination_atoms = 9;
}

abbrev seat : ClaimedSeat
seat = record { owner = 500; owner_kind = 1; sub_vault_id = 2; debt_withdrawable_shares = 5 }

abbrev resting_order : RestingOrder
resting_order = record {
  sequence_number = 8;
  side = 0;
  rate_bps = 500;
  term_seconds = 3600;
  principal_atoms = 900;
  trader_seat_index = 0;
}

abbrev sub_vault : SubVault
sub_vault = record {
  sub_vault_id = 2;
  curator = 30;
  accumulated_curator_fee_atoms = 2_000_000;
  pending_claim_atoms = 5;
  is_sunset = 0;
}

-- The answer of a simulation: it logs one fill.
abbrev pub fill_log : List ℕ
fill_log = codes "Program data: x"

abbrev pub world : Env
world = record {
  get_account = λ h pk. reply (account 1);
  get_multiple_accounts = λ h pks. reply [];
  get_program_accounts = λ h filters. reply (accounts_for filters);
  get_latest_blockhash = λ h. reply 77;
  get_signature_statuses = λ h sigs. reply (some (record { failed = true }) ∷ []);
  simulate_transaction = λ h m. reply (record { failed = false; logs = fill_log ∷ [] });
  send_and_confirm = λ h m sig. reply sig;
  get_balance = λ h pk. reply 0;
  get_slot = λ h. reply 9;
  load_queue = λ h pk. some 7;
  fetch_gateways = λ h queue. some (0 ∷ 1 ∷ []);
  system_time = λ h. some 100_000;
  instant = λ h. 5_000;
  stop_flag = λ h. false;
  fetch_update_consensus = λ h oracles gateway. none;
  pubkey_of = λ k. 1_000 + k;
  sign = λ m keys. some (42 ∷ []);
  compiles = λ m. true;
  find_program_address = λ seeds program. 9;
  create_program_address = λ seeds program. some 9;
  key_bytes = λ k. replicate 32 0;
  base64_decode =
      λ s. some (emitted (1 ∷ 2 ∷ 3 ∷ 4 ∷ 5 ∷ 6 ∷ 7 ∷ 8 ∷ []) (replicate 64 0) 1 (replicate 4 0));
  market_fixed_size = 8;
  loan_fixed_size = 8;
  global_vault_fixed_size = 8;
  market_fixed_discriminant = 1;
  loan_fixed_discriminant = 2;
  global_vault_fixed_discriminant = 3;
  market_fixed = λ bytes. market_header;
  loan_fixed = λ bytes. loan_header;
  global_vault_fixed = λ bytes. some vault_header;
  nil_index = 0xffffffff;
  matched_loans = λ bytes root. node ∷ [];
  claimed_seats = λ bytes root. seat ∷ [];
  book_orders = λ bytes root best. resting_order ∷ [];
  sub_vaults = λ bytes root. sub_vault ∷ [];
  helper_seat = λ bytes index. some seat;
  helper_order = λ bytes index. some resting_order;
  loan_state_active = 1;
  loan_state_repaid = 2;
  loan_type_p2pool = 1;
  owner_kind_sub_vault = 1;
  flag_vault_lender = 1;
  flag_vault_presettled = 2;
  match_crank_log_discriminant = 1 ∷ 2 ∷ 3 ∷ 4 ∷ 5 ∷ 6 ∷ 7 ∷ 8 ∷ [];
  global_vault_pda = λ mint. 500;
  global_vault_signer_pda = λ vault. 601;
  global_vault_staging_pda = λ vault. 602;
  global_vault_integration_account_pda = λ vault. 603;
  vault_address = λ market mint. 604;
  lender_integration_account_address = λ market. 605;
  market_signer_address = λ market. 606;
}

-- The same world, where every send fails with an I/O error.
abbrev pub broken_world : Env
broken_world = record world {
  send_and_confirm = λ h m sig. refused (record { kind = io; text = [] });
  get_signature_statuses = λ h sigs. reply (none ∷ []);
}

abbrev pub rpc : Rpc
rpc = record { priority_fee_micro_lamports = 5; compute_unit_limit = 200_000; has_stop = true }

abbrev pub config : Config
config = record {
  network = localhost;
  rpc_url = codes "http://localhost:8899";
  fee_payer_keypair = base58 (codes "a");
  fee_payer_expected_pubkey = none;
  curator_keypairs_base58 = codes "b" ∷ [];
  program_id = 1;
  marginfi_program_id = 2;
  marginfi_group = 3;
  handlers = record {
    promoter_enabled = true;
    claimer_enabled = true;
    liquidator_enabled = true;
    curator_fee_claimer_enabled = true;
    match_cranker_enabled = true;
    promoter_interval = 5;
    claimer_interval = 30;
    liquidator_interval = 20;
    curator_fee_claimer_interval = 3600;
    match_cranker_interval = 10;
    match_cranker_max_fills = 8;
  };
  thresholds = record {
    min_liquidation_profit_atoms = 1;
    maturity_extra_buffer = 30;
    min_curator_fee_claim_atoms = 1_000_000;
  };
  priority_fee_micro_lamports = 5;
  compute_unit_limit = 200_000;
  min_signer_balance_lamports = 0;
  banks_refresh_interval = 600;
}

abbrev pub ctx : HandlerContext
ctx = record {
  cfg = config;
  rpc = rpc;
  signers = record { fee_payer = 1; curators = (30, 2) ∷ [] };
  swb_cranker = none;
}

abbrev pub bank : ℕ → BankInfo
bank mint = record {
  mint = mint;
  bank = suc mint;
  liquidity_vault = 12;
  liquidity_vault_authority = 13;
  oracles = 14 ∷ [];
  token_program = 15;
  oracle_setup = 3;
}

-- The process at its start, with its banks loaded.
abbrev pub start : State
start = record {
  history = [];
  markets_cache = none;
  banks = (10, bank 10) ∷ (20, bank 20) ∷ [];
  inflight = [];
  fee_payer_low = false;
  ata_balances = [];
}

abbrev pub market : MarketView
market = record {
  address = 500;
  debt_mint = 10;
  collateral_mint = 20;
  debt_bank = 11;
  collateral_bank = 21;
  is_paused = false;
  admin = 3;
  grace_period_seconds = 60;
  liquidation_keeper_bps = 100;
  liquidation_protocol_bps = 100;
}

-- The same world, where the node returns no program accounts, and a process with an old snapshot.
abbrev pub empty_world : Env
empty_world = record world { get_program_accounts = λ h filters. reply []; instant = λ h. 50_000 }

abbrev pub stocked : State
stocked = record start {
  markets_cache = some (record { fetched_at = 5_000; markets = market ∷ [] });
}

-- The same world, where the logs report zero fills.
abbrev pub idle_world : Env
idle_world = record world {
  base64_decode =
      λ s. some (emitted (1 ∷ 2 ∷ 3 ∷ 4 ∷ 5 ∷ 6 ∷ 7 ∷ 8 ∷ []) (replicate 64 0) 0 (replicate 4 0));
}
