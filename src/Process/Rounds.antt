-- ===== src/Process/Rounds.antt =====
-- What a round of a task of src/main.rs may send.
use y_delta_crankers.Base.{some, none, Option, ℕ, ◌≡◌, refl, List, [], ◌∷◌, is_empty}
use y_delta_crankers.System.Types.{Pubkey, Account, Message}
use y_delta_crankers.System.Env.{Env, History, Reply, reply, refused}
use y_delta_crankers.System.Action.{Result, ok, err, panicked, ◌>>◌}
use y_delta_crankers.System.Rules.{
  of_reply-Keeps, of_result-Keeps, Keeps, bind-Triple, bind-Keeps, if-Keeps, if-Triple, pure-Keeps,
  call-Keeps, modify-Keeps, gets-Keeps, attempt-Keeps, panic-Keeps, mono-Triple,
}
use y_delta_crankers.Rpc.Allowed.{Policy, Sent, Allowed, message_reads}
use y_delta_crankers.Rpc.Gate.{Lets}
use y_delta_crankers.Signer.Loaded.{AreOwn}
use y_delta_crankers.SwbCranker.Posted.{IsUpdate, swb_crank_round-Allowed}
use y_delta_crankers.Handlers.CuratorFeeClaimer.Claims.{IsFeeClaim}
use y_delta_crankers.Handlers.CuratorFeeClaimer.Claims as CuratorClaims
use y_delta_crankers.Rpc.Batch
use y_delta_crankers.BankRegistry.Discover
use y_delta_crankers.BankRegistry.Discover.Resolved.{discover_from_markets-Triple}
use y_delta_crankers.Handlers.Context.{HandlerContext}
use y_delta_crankers.Handlers.Promoter.Gate as PromoterGate
use y_delta_crankers.Handlers.Claimer.Gate as ClaimerGate
use y_delta_crankers.Handlers.Liquidator.Gate as LiquidatorGate
use y_delta_crankers.Handlers.MatchCranker.Gate as MatchCrankerGate
use y_delta_crankers.Supervisor.Rounds.{
  round-Keeps, load_stop-Keeps, unless_stopping-Keeps, sleep_for-Keeps,
}
use y_delta_crankers.Metrics
use y_delta_crankers.Process
use y_delta_crankers.SwbCranker.{SwbCranker}
use y_delta_crankers.Process.{
  warm_keeper, Task, promoter, claimer, liquidator, curator_fee_claimer, match_cranker, sol_balance,
  ata_balance, bank_refresh, IsTaskOf, Step, ran, Reaches, at_start, then_step, tasks, spawned,
  enabled,
}

-- For any policy.
module _ (P : Policy) (env : Env) (ctx : HandlerContext) where
  note_balance-Allowed :
      (r : Reply ℕ) → Keeps (Allowed P []) (Sent P) (Metrics.note_balance env ctx r)
  unfolding Metrics.note_balance
  note_balance-Allowed (reply lamports) =
      bind-Keeps (gets-Keeps _) λ was. if-Keeps _ (modify-Keeps _ (λ s g. g)) (pure-Keeps _)
  note_balance-Allowed (refused e) = pure-Keeps _

  sol_balance-Allowed :
      (fuel : ℕ) → Keeps (Allowed P []) (Sent P) (Metrics.sol_balance_round env ctx fuel)
  unfolding Metrics.sol_balance_round ◌>>◌
  sol_balance-Allowed fuel = bind-Keeps (load_stop-Keeps (message_reads P []) env) λ stop.
      unless_stopping-Keeps (message_reads P []) env _ stop (
        bind-Keeps (call-Keeps _ _ (λ s g. g)) λ r.
          bind-Keeps (note_balance-Allowed r) λ u. sleep_for-Keeps (message_reads P []) env fuel _)

  refresh_banks-Allowed :
      (marginfi_program : Pubkey)
      → Keeps (Allowed P []) (Sent P) (Discover.refresh_banks env ctx.rpc marginfi_program)
  unfolding Discover.refresh_banks
  refresh_banks-Allowed marginfi_program =
      bind-Triple _ (discover_from_markets-Triple (message_reads P []) env ctx.rpc marginfi_program)
        λ fresh.
          if-Triple (is_empty fresh) (λ e. mono-Triple (λ s g. g.0) (pure-Keeps _))
            (λ e. mono-Triple (λ s g. g.0) (modify-Keeps _ (λ s g. g)))

  logged-Allowed :
      (r : Result (Unit {0})) → Keeps (Allowed P []) (Sent P) (Metrics.logged env ctx r)
  logged-Allowed (ok u) = pure-Keeps _
  logged-Allowed (err e) = pure-Keeps _
  logged-Allowed panicked = panic-Keeps (λ s g. g.0)

  bank_refresh-Allowed :
      (fuel : ℕ) → Keeps (Allowed P []) (Sent P) (Metrics.bank_refresh_round env ctx fuel)
  unfolding Metrics.bank_refresh_round ◌>>◌
  bank_refresh-Allowed fuel = bind-Keeps (load_stop-Keeps (message_reads P []) env) λ stop.
      unless_stopping-Keeps (message_reads P []) env _ stop (
        bind-Keeps (attempt-Keeps (refresh_banks-Allowed _))
          λ r. bind-Keeps (logged-Allowed r) λ u. sleep_for-Keeps (message_reads P []) env fuel _)

  join_all-Allowed :
      (addresses : List Pubkey) (order : List ℕ) (output : List (Option Account))
      → Keeps (Allowed P []) (Sent P) (Batch.join_all env addresses order output)
  unfolding Batch.join_all
  join_all-Allowed addresses [] output = pure-Keeps _
  join_all-Allowed addresses (idx ∷ order) output = bind-Keeps (call-Keeps _ _ (λ s g. g)) λ r.
      bind-Keeps (of_reply-Keeps r)
        λ accounts. bind-Keeps (of_result-Keeps (λ s g. g.0) _) (join_all-Allowed addresses order)

  note_atas-Allowed :
      (entries : List (Pubkey × Pubkey)) (r : Result (List (Option Account)))
      → Keeps (Allowed P []) (Sent P) (Metrics.note_atas env ctx entries r)
  note_atas-Allowed entries (ok accts) = modify-Keeps _ (λ s g. g)
  note_atas-Allowed entries (err e) = pure-Keeps _
  note_atas-Allowed entries panicked = panic-Keeps (λ s g. g.0)

  observe_atas-Allowed :
      (order : List ℕ) (entries : List (Pubkey × Pubkey))
      → Keeps (Allowed P []) (Sent P) (Metrics.observe_atas env ctx order entries)
  unfolding Batch.batch_get_multiple_accounts
  observe_atas-Allowed order [] = pure-Keeps _
  observe_atas-Allowed order (e ∷ entries) =
      bind-Keeps (attempt-Keeps (join_all-Allowed _ order _)) (note_atas-Allowed (e ∷ entries))

  ata_balance-Allowed :
      (order : List ℕ) (fuel : ℕ)
      → Keeps (Allowed P []) (Sent P) (Metrics.ata_balance_round env ctx order fuel)
  unfolding Metrics.ata_balance_round ◌>>◌
  ata_balance-Allowed order fuel = bind-Keeps (load_stop-Keeps (message_reads P []) env) λ stop.
      unless_stopping-Keeps (message_reads P []) env _ stop (
        bind-Keeps (gets-Keeps _) λ banks.
          bind-Keeps (observe_atas-Allowed order _)
            λ u. sleep_for-Keeps (message_reads P []) env fuel _)

-- What a policy has to let be sent for a task: what passed a simulation, and what the two tasks
-- that do not simulate send.
abbrev pub Covers : Policy → Env → HandlerContext → Task → Type 0
Covers P env ctx curator_fee_claimer =
    AreOwn env ctx.signers.curators × ((h : History) (m : Message) → IsFeeClaim env ctx m → P h m)
Covers P env ctx warm_keeper =
    (cranker : SwbCranker)
    → ctx.swb_cranker ≡ some cranker
    → (h : History) (m : Message) → IsUpdate env cranker m
    → P h m
Covers P env ctx _ = Unit {0}

module _ (P : Policy) (lets : Lets P) (env : Env) (ctx : HandlerContext) where
  warm_round-Allowed :
      (swb_cranker : Option SwbCranker)
      → ((cranker : SwbCranker)
          → swb_cranker ≡ some cranker
          → (h : History) (m : Message) → IsUpdate env cranker m
          → P h m)
      → Keeps (Allowed P []) (Sent P) (Process.warm_round env ctx swb_cranker)
  warm_round-Allowed none c = pure-Keeps _
  warm_round-Allowed (some cranker) c = swb_crank_round-Allowed P [] env cranker (c cranker refl)

  pub round_of-Allowed :
      (order : List ℕ) (fuel : ℕ) (task : Task)
      → Covers P env ctx task
      → Keeps (Allowed P []) (Sent P) (Process.round_of env ctx order fuel task)
  unfolding Process.round_of
  round_of-Allowed order fuel promoter h =
      round-Keeps (message_reads P []) env _ _ fuel (PromoterGate.tick-Allowed P lets [] env ctx)
  round_of-Allowed order fuel claimer h =
      round-Keeps (message_reads P []) env _ _ fuel (ClaimerGate.tick-Allowed P lets [] env ctx)
  round_of-Allowed order fuel liquidator h =
      round-Keeps (message_reads P []) env _ _ fuel (LiquidatorGate.tick-Allowed P lets [] env ctx)
  round_of-Allowed order fuel curator_fee_claimer h =
      round-Keeps (message_reads P []) env _ _ fuel
        (CuratorClaims.tick-Allowed P [] env ctx h.0 h.1)
  round_of-Allowed order fuel match_cranker h =
      round-Keeps (message_reads P []) env _ _ fuel
        (MatchCrankerGate.tick-Allowed P lets [] env ctx)
  round_of-Allowed order fuel sol_balance h = sol_balance-Allowed P env ctx fuel
  round_of-Allowed order fuel ata_balance h = ata_balance-Allowed P env ctx order fuel
  round_of-Allowed order fuel bank_refresh h = bank_refresh-Allowed P env ctx fuel
  round_of-Allowed order fuel warm_keeper h = warm_round-Allowed ctx.swb_cranker h
