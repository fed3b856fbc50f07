-- ===== src/Config/Load.antt =====
-- src/config.rs `Config::from_env`: the whole configuration, in the order in which it is read.
use y_delta_crankers.Base.{true, false, List, [], Option, none, some, codes}
use y_delta_crankers.System.Types.{Pubkey, two_fee_payers, no_fee_payer}
use y_delta_crankers.System.Action.{Result, ok, err}
use y_delta_crankers.System.Outcome.{◌>>=◌}
use y_delta_crankers.System.Host.{Host, Text}
use y_delta_crankers.Config.{Config, HandlersConfig, ThresholdsConfig, KeypairSource, path, base58}
use y_delta_crankers.Config.Vars.{
  network_from_str, require_var, optional_var, bool_var, u64_var, u32_var, secs_var, parse_pubkey,
  parse_curator_keypairs_json,
}

module _ (host : Host) where
  abbrev pub program_id_text : Option Text → Text
  program_id_text none = host.text_of_pubkey host.ydelta_id
  program_id_text (some text) = text

  -- The two variables that name the fee payer exclude each other.
  abbrev pub keypair_source : Option Text → Option Text → Result KeypairSource
  keypair_source (some file) (some b58) = err two_fee_payers
  keypair_source (some file) none = ok (path file)
  keypair_source none (some b58) = ok (base58 b58)
  keypair_source none none = err no_fee_payer

  abbrev pub expected_pubkey : Option Text → Result (Option Pubkey)
  expected_pubkey none = ok none
  expected_pubkey (some text) = do pubkey ← parse_pubkey host text; ok (some pubkey)

  abbrev pub curator_keypairs : Option Text → Result (List Text)
  curator_keypairs none = ok []
  curator_keypairs (some raw) = parse_curator_keypairs_json host raw

  unfoldable pub read_handlers : Result HandlersConfig
  read_handlers = do
    promoter ← bool_var host (codes "PROMOTER_ENABLED") true
    claimer ← bool_var host (codes "CLAIMER_ENABLED") true
    liquidator ← bool_var host (codes "LIQUIDATOR_ENABLED") true
    curator_fee_claimer ← bool_var host (codes "CURATOR_FEE_CLAIMER_ENABLED") false
    match_cranker ← bool_var host (codes "MATCH_CRANKER_ENABLED") true
    promoter_sec ← secs_var host (codes "PROMOTER_INTERVAL_SEC") 5
    claimer_sec ← secs_var host (codes "CLAIMER_INTERVAL_SEC") 30
    liquidator_sec ← secs_var host (codes "LIQUIDATOR_INTERVAL_SEC") 10
    curator_fee_claimer_sec ← secs_var host (codes "CURATOR_FEE_CLAIMER_INTERVAL_SEC") 3_600
    match_cranker_sec ← secs_var host (codes "MATCH_CRANKER_INTERVAL_SEC") 15
    max_fills ← u32_var host (codes "MATCH_CRANKER_MAX_FILLS") 8
    ok (record {
      promoter_enabled = promoter;
      claimer_enabled = claimer;
      liquidator_enabled = liquidator;
      curator_fee_claimer_enabled = curator_fee_claimer;
      match_cranker_enabled = match_cranker;
      promoter_interval = promoter_sec;
      claimer_interval = claimer_sec;
      liquidator_interval = liquidator_sec;
      curator_fee_claimer_interval = curator_fee_claimer_sec;
      match_cranker_interval = match_cranker_sec;
      match_cranker_max_fills = max_fills;
    })

  unfoldable pub read_thresholds : Result ThresholdsConfig
  read_thresholds = do
    profit ← u64_var host (codes "MIN_LIQUIDATION_PROFIT_ATOMS") 1_000_000
    buffer ← secs_var host (codes "MATURITY_EXTRA_BUFFER_SEC") 30
    fee ← u64_var host (codes "MIN_CURATOR_FEE_CLAIM_ATOMS") 100_000
    ok (record {
      min_liquidation_profit_atoms = profit;
      maturity_extra_buffer = buffer;
      min_curator_fee_claim_atoms = fee;
    })

  unfoldable pub from_env : Result Config
  from_env = do
    network_text ← require_var host (codes "NETWORK")
    network ← network_from_str network_text
    rpc_url ← require_var host (codes "RPC_URL")
    program_id ← parse_pubkey host (program_id_text (optional_var host (codes "YDELTA_PROGRAM_ID")))
    marginfi_program_text ← require_var host (codes "MARGINFI_PROGRAM_ID")
    marginfi_program_id ← parse_pubkey host marginfi_program_text
    marginfi_group_text ← require_var host (codes "MARGINFI_GROUP")
    marginfi_group ← parse_pubkey host marginfi_group_text
    source ←
        keypair_source (optional_var host (codes "FEE_PAYER_KEYPAIR"))
          (optional_var host (codes "FEE_PAYER_KEYPAIR_BASE58"))
    expected ← expected_pubkey (optional_var host (codes "FEE_PAYER_PUBKEY"))
    handlers ← read_handlers
    thresholds ← read_thresholds
    priority_fee ← u64_var host (codes "PRIORITY_FEE_MICRO_LAMPORTS") 1_000
    cu_limit ← u32_var host (codes "COMPUTE_UNIT_LIMIT") 400_000
    min_balance ← u64_var host (codes "MIN_SIGNER_BALANCE_LAMPORTS") 50_000_000
    banks_refresh ← secs_var host (codes "BANKS_REFRESH_SEC") 300
    curators ← curator_keypairs (optional_var host (codes "CURATOR_KEYPAIRS_JSON"))
    ok (record {
      network = network;
      rpc_url = rpc_url;
      program_id = program_id;
      marginfi_program_id = marginfi_program_id;
      marginfi_group = marginfi_group;
      fee_payer_keypair = source;
      fee_payer_expected_pubkey = expected;
      handlers = handlers;
      thresholds = thresholds;
      priority_fee_micro_lamports = priority_fee;
      compute_unit_limit = cu_limit;
      min_signer_balance_lamports = min_balance;
      banks_refresh_interval = banks_refresh;
      curator_keypairs_base58 = curators;
    })
