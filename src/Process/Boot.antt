-- ===== src/Process/Boot.antt =====
-- src/main.rs: what main does before the tasks run, from the environment to the shared context.
pub mod Sends
use y_delta_crankers.Base.{
  ℕ, Bool, true, false, ◌||◌, List, [], ◌∷◌, Option, none, some, Map, codes, bytes_eq,
  if◌then◌else◌,
}
use y_delta_crankers.System.Types.{Pubkey, Keypair, bad_bind, exporter_failed}
use y_delta_crankers.System.Env.{Env, asked_slot}
use y_delta_crankers.System.Action.{
  State, Action, Result, ok, err, panicked, pure, fail, panic, gets, of_reply, of_result, call,
  attempt, ◌>>=◌, ◌>>◌,
}
use y_delta_crankers.System.Outcome.{ok_or}
use y_delta_crankers.System.Host.{Host, Text}
use y_delta_crankers.Config.{Config}
use y_delta_crankers.Config.Load.{from_env}
use y_delta_crankers.Signer
use y_delta_crankers.Signer.{Signers}
use y_delta_crankers.Rpc
use y_delta_crankers.BankRegistry.{has_switchboard_pull}
use y_delta_crankers.BankRegistry.Discover.{discover_banks_from_markets}
use y_delta_crankers.BankRegistry.Atas.{ensure_atas_for}
use y_delta_crankers.SwbCranker
use y_delta_crankers.SwbCranker.{SwbCranker}
use y_delta_crankers.Handlers.Context.{HandlerContext}

-- What the tasks are spawned with.
pub record Booted : Type 0 where
  pub ctx : HandlerContext
  pub warmkeeper_enabled : Bool

-- The state before the first call.
abbrev pub initial : State
initial = record {
  history = [];
  markets_cache = none;
  banks = [];
  inflight = [];
  fee_payer_low = false;
  ata_balances = [];
}

abbrev pub rpc_of : Config → Rpc.Rpc
rpc_of cfg = Rpc.with_stop_signal (Rpc.new cfg.priority_fee_micro_lamports cfg.compute_unit_limit)

-- `unwrap_or_else(|_| default)`
abbrev or_default : Text → Option Text → Text
or_default default none = default
or_default default (some text) = text

abbrev and_then : {A B : Type 0} → (A → Option B) → Option A → Option B
and_then f none = none
and_then f (some a) = f a

-- `unwrap_or_else(|| default.parse().expect(..))`
abbrev pub or_parsed : Option Pubkey → Option Pubkey → Action Pubkey
or_parsed default (some key) = pure key
or_parsed (some default) none = pure default
or_parsed none none = panic

abbrev is_on : Option Text → Bool
is_on none = false
is_on (some v) = bytes_eq v (codes "true") || bytes_eq v (codes "1")

module _ (env : Env) (host : Host) where
  -- An address to listen at: the variable, or the default.
  abbrev pub bind_addr : Text → Text → Result ℕ
  bind_addr name default =
      ok_or (host.socket_addr (or_default default (host.var name))) (bad_bind name)

  abbrev pub warned : Result (Unit {0}) → Action (Unit {0})
  warned (ok u) = pure tt
  warned (err e) = pure tt
  warned panicked = panic

  -- The token accounts of the curators: a failure is logged, and the next curator's turn comes.
  unfoldable pub ensure_curators : Rpc.Rpc → Map Keypair → Action (Unit {0})
  ensure_curators rpc [] = pure tt
  ensure_curators rpc ((curator_pk, keypair) ∷ curators) = do
    r ← attempt (ensure_atas_for env rpc keypair)
    warned r
    ensure_curators rpc curators

  abbrev pub install : ℕ → Action (Unit {0})
  install metrics_bind =
      if host.install_exporter metrics_bind then pure tt else fail exporter_failed

  -- The queue of the variable if it is a key, and that of mainnet otherwise.
  abbrev pub swb_queue : Action Pubkey
  swb_queue =
      or_parsed (host.pubkey_of_text (codes "A43DyUGA7s8eXPxqEjJY6EBu1KKbNgfxF8h17VAHn13w"))
        (and_then host.pubkey_of_text (host.var (codes "SWITCHBOARD_QUEUE")))

  -- Without the cranker its users go on.
  abbrev pub or_without : Result SwbCranker → Action (Option SwbCranker)
  or_without (ok cranker) = pure (some cranker)
  or_without (err e) = pure none
  or_without panicked = panic

  abbrev pub new_cranker : Keypair → Action (Option SwbCranker)
  new_cranker fee_payer = do
    queue ← swb_queue
    r ← attempt (SwbCranker.new env queue fee_payer)
    or_without r

  -- The cranker is there for the registries that have a feed for it.
  unfoldable pub boot_cranker : Keypair → Action (Option SwbCranker)
  boot_cranker fee_payer = do
    banks ← gets (λ s. s.banks)
    if has_switchboard_pull banks then new_cranker fee_payer else pure none

  -- With the configuration and the keys: banks, token accounts, listeners, the node, the cranker.
  unfoldable pub boot_with : Config → Signers → Action Booted
  boot_with cfg signers = do
    discovered ← discover_banks_from_markets env (rpc_of cfg) cfg.marginfi_program_id
    created ← ensure_atas_for env (rpc_of cfg) signers.fee_payer
    tried ← ensure_curators (rpc_of cfg) signers.curators
    metrics_bind ← of_result (bind_addr (codes "METRICS_BIND") (codes "127.0.0.1:9091"))
    installed ← install metrics_bind
    health_bind ← of_result (bind_addr (codes "HEALTH_BIND") (codes "0.0.0.0:8080"))
    r ← call asked_slot env.get_slot
    slot ← of_reply r
    swb_cranker ← boot_cranker signers.fee_payer
    pure (record {
      ctx = record { cfg = cfg; rpc = rpc_of cfg; signers = signers; swb_cranker = swb_cranker };
      warmkeeper_enabled = is_on (host.var (codes "SWITCHBOARD_WARMKEEPER"));
    })

  unfoldable pub boot : Action Booted
  boot = do
    cfg ← of_result (from_env host)
    signers ← of_result (Signer.load env host cfg)
    boot_with cfg signers
