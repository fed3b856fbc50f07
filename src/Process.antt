-- ===== src/Process.antt =====
-- src/main.rs: the tasks that the process spawns, and how their rounds follow each other. A step of
-- the process is one round of one task; a round that panics ends the process, as its panic hook
-- does, so no step follows it.
pub mod Boot
pub mod Rounds
pub mod Reached
pub mod Permitted
use y_delta_crankers.Base.{
  ℕ, ◌*◌, ◌≡◌, ◌⊎◌, Bool, true, false, List, [], ◌∷◌, ◌++◌, ◌&&◌, Option, none, some, if◌then◌else◌,
}
use y_delta_crankers.System.Env.{Env}
use y_delta_crankers.System.Action.{State, Action, Result, ok, pure}
use y_delta_crankers.Config.{HandlersConfig}
use y_delta_crankers.Handlers.Context.{HandlerContext}
use y_delta_crankers.Handlers.Promoter
use y_delta_crankers.Handlers.Claimer
use y_delta_crankers.Handlers.Liquidator
use y_delta_crankers.Handlers.CuratorFeeClaimer
use y_delta_crankers.Handlers.MatchCranker
use y_delta_crankers.Supervisor
use y_delta_crankers.Supervisor.{Wake, stopping, Handler}
use y_delta_crankers.Metrics
use y_delta_crankers.SwbCranker.{SwbCranker}
use y_delta_crankers.SwbCranker.WarmKeeper.{swb_crank_round}

pub data Task : Type 0 where
  promoter claimer liquidator curator_fee_claimer match_cranker : Task
  sol_balance ata_balance bank_refresh warm_keeper : Task

-- A task before the others, if it is enabled.
abbrev pub enabled : Bool → Task → List Task → List Task
enabled true task tasks = task ∷ tasks
enabled false task tasks = tasks

-- The handlers that are spawned, in their order.
unfoldable pub spawned : HandlersConfig → List Task
spawned handlers = enabled handlers.promoter_enabled promoter (
    enabled handlers.claimer_enabled claimer (
      enabled handlers.liquidator_enabled liquidator (
        enabled handlers.curator_fee_claimer_enabled curator_fee_claimer
          (enabled handlers.match_cranker_enabled match_cranker []))))

abbrev pub is_some : {A : Type 0} → Option A → Bool
is_some none = false
is_some (some a) = true

-- With the loops beside them; the warm-keeper if there is a cranker, and it is switched on.
unfoldable pub tasks : Bool → Option SwbCranker → HandlersConfig → List Task
tasks warmkeeper_enabled swb_cranker handlers =
    enabled (warmkeeper_enabled && is_some swb_cranker) warm_keeper
      (sol_balance ∷ ata_balance ∷ bank_refresh ∷ spawned handlers)

module _ (env : Env) (ctx : HandlerContext) where
  -- Without a cranker there is no such task.
  abbrev pub warm_round : Option SwbCranker → Action Wake
  warm_round none = pure stopping
  warm_round (some cranker) = swb_crank_round env cranker

  -- All but the curator-fee claimer pay with the fee payer.
  abbrev pub paying : Action (Unit {0}) → Handler
  paying tick = record { requires_fee_payer = true; tick = tick }

  -- A round of a task, with so much fuel for its sleep, where the chunks of a batched read are
  -- answered in this order; intervals are in seconds.
  unfoldable pub round_of : List ℕ → ℕ → Task → Action Wake
  round_of order fuel promoter =
      Supervisor.round env (paying (Promoter.tick env ctx))
        (1_000 * ctx.cfg.handlers.promoter_interval) fuel
  round_of order fuel claimer =
      Supervisor.round env (paying (Claimer.tick env ctx))
        (1_000 * ctx.cfg.handlers.claimer_interval) fuel
  round_of order fuel liquidator =
      Supervisor.round env (paying (Liquidator.tick env ctx))
        (1_000 * ctx.cfg.handlers.liquidator_interval) fuel
  round_of order fuel curator_fee_claimer =
      Supervisor.round env
        (record { requires_fee_payer = false; tick = CuratorFeeClaimer.tick env ctx })
        (1_000 * ctx.cfg.handlers.curator_fee_claimer_interval) fuel
  round_of order fuel match_cranker =
      Supervisor.round env (paying (MatchCranker.tick env ctx))
        (1_000 * ctx.cfg.handlers.match_cranker_interval) fuel
  round_of order fuel sol_balance = Metrics.sol_balance_round env ctx fuel
  round_of order fuel ata_balance = Metrics.ata_balance_round env ctx order fuel
  round_of order fuel bank_refresh = Metrics.bank_refresh_round env ctx fuel
  round_of order fuel warm_keeper = warm_round ctx.swb_cranker

abbrev pub IsTaskOf : Task → List Task → Type 0
IsTaskOf task [] = ⊥
IsTaskOf task (t ∷ ts) = (t ≡ task) ⊎ IsTaskOf task ts

-- One round of one of the process's tasks.
pub data Step (env : Env) (ctx : HandlerContext) (warmkeeper_enabled : Bool) (s : State)
    : State → Type 0 where
  ran :
      (task : Task) (order : List ℕ) (fuel : ℕ) (ended : Wake) (t : State)
      → IsTaskOf task (tasks warmkeeper_enabled ctx.swb_cranker ctx.cfg.handlers)
      → round_of env ctx order fuel task s ≡ (ok ended, t)
      → Step env ctx warmkeeper_enabled s t

-- The states that some rounds, in some order, lead to.
pub data Reaches (env : Env) (ctx : HandlerContext) (warmkeeper_enabled : Bool) (s : State)
    : State → Type 0 where
  at_start : Reaches env ctx warmkeeper_enabled s s
  then_step :
      {t u : State}
      → Reaches env ctx warmkeeper_enabled s t
      → Step env ctx warmkeeper_enabled t u
      → Reaches env ctx warmkeeper_enabled s u
