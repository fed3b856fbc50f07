-- ===== src/Tests/Boot.antt =====
-- The start of the process in a world with one market, whose two banks the node knows, and with no
-- token accounts.
use y_delta_crankers.Base.{
  be_value, le_value, true, codes, ◌≡◌, refl, inl, false, ℕ, ◌+◌, ◌==◌, List, [], ◌∷◌, ◌++◌, Option,
  none, some, map, replicate, if◌then◌else◌,
}
use y_delta_crankers.System.Types.{Pubkey, Account, io}
use y_delta_crankers.System.Env.{Env, reply, refused}
use y_delta_crankers.System.Action.{State, Result, ok}
use y_delta_crankers.MarginfiBank.{bank_discriminator_bytes}
use y_delta_crankers.BankRegistry.{spl_token_legacy_id}
use y_delta_crankers.Supervisor.{out_of_fuel}
use y_delta_crankers.Rpc.Allowed.{Allowed}
use y_delta_crankers.Process
use y_delta_crankers.Process.{Reaches, at_start, then_step, ran, sol_balance}
use y_delta_crankers.Process.Permitted.{Permitted, Reaches-Permitted}
use y_delta_crankers.Process.Boot
use y_delta_crankers.Process.Boot.{Booted, initial}
use y_delta_crankers.System.Action
use y_delta_crankers.System.Outcome
use y_delta_crankers.Config.Load
use y_delta_crankers.Config.Vars
use y_delta_crankers.Base.Text
use y_delta_crankers.Signer
use y_delta_crankers.ChainReader
use y_delta_crankers.ChainReader.Decode as ChainDecode
use y_delta_crankers.BankRegistry
use y_delta_crankers.BankRegistry.Decode as BankDecode
use y_delta_crankers.BankRegistry.Discover
use y_delta_crankers.BankRegistry.Atas
use y_delta_crankers.MarginfiBank
use y_delta_crankers.Rpc
use y_delta_crankers.SwbCranker
use y_delta_crankers.Supervisor
use y_delta_crankers.Metrics
use y_delta_crankers.Config.{mainnet, path}
use y_delta_crankers.Tests.World.{world}
use y_delta_crankers.Tests.Startup.{host}

abbrev bank_bytes : Pubkey → List ℕ
bank_bytes mint =
    bank_discriminator_bytes
    ++ replicate 31 0
    ++ mint ∷ replicate 569 0
    ++ 4 ∷ replicate 31 0
    ++ 14 ∷ replicate 1_222 0

abbrev account_at : Pubkey → Option Account
account_at pk =
    if pk == 11
    then some (record { owner = 5; bytes = bank_bytes 10 })
    else if pk == 21
    then some (record { owner = 5; bytes = bank_bytes 20 })
    else if pk == 9
    then none
    else some (record { owner = spl_token_legacy_id; bytes = [] })

abbrev chain_world : Env
chain_world = record world {
  pubkey_of = λ k. 28 + k;
  get_balance = λ h pk. refused (record { kind = io; text = [] });
  get_multiple_accounts = λ h pks. reply (map account_at pks);
}

-- What the tasks are spawned with.
abbrev booted : Booted
booted = record {
  ctx = record {
    cfg = record {
      network = mainnet;
      rpc_url = codes "https://node";
      program_id = 5;
      marginfi_program_id = 5;
      marginfi_group = 5;
      fee_payer_keypair = path (codes "/key.json");
      fee_payer_expected_pubkey = none;
      handlers = record {
        promoter_enabled = true;
        claimer_enabled = false;
        liquidator_enabled = true;
        curator_fee_claimer_enabled = true;
        match_cranker_enabled = true;
        promoter_interval = 5;
        claimer_interval = 30;
        liquidator_interval = 10;
        curator_fee_claimer_interval = 3_600;
        match_cranker_interval = 15;
        match_cranker_max_fills = 8;
      };
      thresholds = record {
        min_liquidation_profit_atoms = 1_000_000;
        maturity_extra_buffer = 30;
        min_curator_fee_claim_atoms = 100_000;
      };
      priority_fee_micro_lamports = 1_000;
      compute_unit_limit = 250_000;
      min_signer_balance_lamports = 50_000_000;
      banks_refresh_interval = 300;
      curator_keypairs_base58 = codes "secret" ∷ [];
    };
    rpc = record {
      priority_fee_micro_lamports = 1_000;
      compute_unit_limit = 250_000;
      has_stop = true;
    };
    signers = record { fee_payer = 1; curators = (30, 2) ∷ [] };
    swb_cranker = some (record { gateways = 0 ∷ 1 ∷ []; payer = 1 });
  };
  warmkeeper_enabled = false;
}

abbrev spawned_at : State
spawned_at = (Boot.boot chain_world host initial).1

boots : Boot.boot chain_world host initial ≡ (ok booted, spawned_at)
unfolding Action.pure Action.fail Action.gets Action.or_fail Action.of_reply Action.◌>>=◌
    Action.◌>>◌ Action.modify Action.call Action.call_noting Action.of_result Action.attempt
    Outcome.◌>>=◌ Load.read_handlers Load.read_thresholds Load.from_env Vars.network_from_str
    Vars.require_var Vars.optional_var Vars.bool_var Vars.u64_var Vars.u32_var Vars.secs_var
    Vars.parse_pubkey Vars.parse_curator_keypairs_json Text.is_whitespace Text.trim_start
    Text.trim_end Text.trim Text.parse_unsigned Signer.load_keypair_from_file
    Signer.load_keypair_from_base58 Signer.load_keypair Signer.load_curators Signer.load
    ChainReader.get_program_accounts ChainReader.fetch_markets ChainReader.markets_cache_put
    ChainReader.refresh_markets ChainDecode.decode_market_fixed ChainDecode.split_market
    ChainDecode.market_view_from_fixed ChainDecode.insert_market ChainDecode.sort_by_address
    ChainDecode.decode_markets BankRegistry.is_switchboard_pull BankRegistry.has_switchboard_pull
    BankRegistry.ata_for BankRegistry.bind_mint BankRegistry.bind_markets BankDecode.insert_entry
    BankDecode.sort_entries BankDecode.decode_entry BankDecode.decode_entries
    BankDecode.token_program_of BankDecode.bank_info BankDecode.build_registry
    Discover.get_multiple_accounts Discover.resolve_entries Discover.resolve_from_chain
    Discover.discover_from Discover.discover_from_markets Discover.discover_banks_from_markets
    Atas.missing_of Atas.create_associated_token_account_idempotent_ix Atas.create_missing
    Atas.ensure_atas_of Atas.ensure_atas_for MarginfiBank.read_pubkey MarginfiBank.read_i128
    MarginfiBank.read_u32 MarginfiBank.read_u8 MarginfiBank.read_points MarginfiBank.read_oracles
    MarginfiBank.decode_body MarginfiBank.try_from_account_data Rpc.priority_fee_preamble
    Rpc.stopped Rpc.latest_blockhash Rpc.previous_landed Rpc.send_once Rpc.send_attempts
    Rpc.legacy_transaction Rpc.send_with_retry Rpc.counted_send Rpc.send_signed_labeled
    SwbCranker.new Boot.ensure_curators Boot.boot_cranker Boot.boot_with Boot.boot be_value le_value
    Action.or_panic
boots = refl

abbrev later : State
later = (Process.round_of chain_world booted.ctx [] 0 sol_balance spawned_at).1

-- The start, and a round of the loop that watches the balance, whose reading fails.
first_round : Reaches chain_world booted.ctx booted.warmkeeper_enabled spawned_at later
unfolding Process.tasks Process.round_of Metrics.sol_balance_round Metrics.note_balance
    Supervisor.load_stop Supervisor.sleep_for Supervisor.sleep_until Action.◌>>=◌ Action.◌>>◌
    Action.pure Action.gets Action.modify Action.call
first_round = then_step at_start (ran sol_balance [] 0 out_of_fuel later (inl refl) refl)

Reaches-Permitted_example : Allowed (Permitted chain_world host booted) [] later
Reaches-Permitted_example = Reaches-Permitted chain_world host booted boots first_round
