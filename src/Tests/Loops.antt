-- ===== src/Tests/Loops.antt =====
-- The loops of the process in small worlds: sleeps, pauses, stops, and a round of the process.
use y_delta_crankers.Base.{ℕ, ◌+◌, ◌≡◌, refl, inl, Bool, true, false, [], ◌∷◌, arith}
use y_delta_crankers.System.Env.{Env, History, reply, slept, asked_instant, asked_stop}
use y_delta_crankers.System.Action.{
  State, ok, record_event, pure, gets, modify, call, attempt, ◌>>=◌, ◌>>◌,
}
use y_delta_crankers.System.Rules.{After}
use y_delta_crankers.Rpc.Gate.{Gated}
use y_delta_crankers.Handlers.Context.{HandlerContext}
use y_delta_crankers.Handlers.Claimer
use y_delta_crankers.Supervisor
use y_delta_crankers.Supervisor.{Handler, stopping, out_of_fuel, ticked}
use y_delta_crankers.Supervisor.Sleep.{Advances, HasEnded, sleep_until-HasEnded}
use y_delta_crankers.Supervisor.Rounds.{Paused, rounds-Paused, rounds-stopping}
use y_delta_crankers.Metrics
use y_delta_crankers.Metrics.Balance.{note_balance-flag}
use y_delta_crankers.Process
use y_delta_crankers.Process.{Reaches, at_start, then_step, ran, sol_balance}
use y_delta_crankers.Process.Reached.{Reaches-Gated}
use y_delta_crankers.Tests.World.{world, ctx, start}

-- A clock that shows how long the process has slept.
abbrev elapsed : History → ℕ
elapsed [] = 0
elapsed (slept d ∷ h) = d + elapsed h
elapsed (e ∷ h) = elapsed h

abbrev clock_world : Env
clock_world = record world { instant = elapsed }

clock_world-Advances : Advances clock_world
clock_world-Advances d h = omega arith

sleep_until-HasEnded_example : HasEnded (Supervisor.sleep_until clock_world 2_500 4 start)
sleep_until-HasEnded_example =
    sleep_until-HasEnded clock_world 2_500 3 start clock_world-Advances (omega arith)

abbrev claimer_handler : Handler
claimer_handler = record { requires_fee_payer = true; tick = Claimer.tick world ctx }

abbrev low : State
low = record start { fee_payer_low = true }

rounds-Paused_example :
    After
      (Paused 0)
      (Paused 0)
      (λ _. Paused 0)
      (Supervisor.rounds world claimer_handler 30_000 31 2 low)
rounds-Paused_example = rounds-Paused world claimer_handler 30_000 31 2 low refl refl

-- The flag is on once the clock has been read.
abbrev told : History → Bool
told (asked_instant ∷ h) = true
told _ = false

abbrev told_world : Env
told_world = record world { stop_flag = told }

abbrev idle_handler : Handler
idle_handler = record { requires_fee_payer = true; tick = pure tt }

idle-run_tick :
    Supervisor.run_tick told_world idle_handler false (record_event asked_stop start)
    ≡ (ok ticked, record_event asked_stop start)
unfolding Supervisor.run_tick pure attempt ◌>>=◌
idle-run_tick = refl

rounds-stopping_example : Supervisor.rounds told_world idle_handler 30_000 31 2 start ≡ (
  ok stopping,
  record_event asked_stop (record_event asked_instant (record_event asked_stop start)),
)
rounds-stopping_example =
    rounds-stopping told_world idle_handler 30_000 30 1 start (record_event asked_stop start) ticked
      refl idle-run_tick refl

note_balance-flag_example : (Metrics.note_balance world ctx (reply 7) low).1.fee_payer_low ≡ false
note_balance-flag_example = note_balance-flag world ctx (reply 7) low

-- The default: the curator-fee claimer is off.
abbrev plain_ctx : HandlerContext
plain_ctx = record ctx {
  cfg = record ctx.cfg {
    handlers = record ctx.cfg.handlers { curator_fee_claimer_enabled = false };
  };
}

abbrev later : State
later = (Process.round_of world plain_ctx [] 0 sol_balance start).1

one_round : Reaches world plain_ctx false start later
unfolding Process.round_of Process.tasks Metrics.sol_balance_round Metrics.note_balance
    Supervisor.load_stop Supervisor.sleep_for Supervisor.sleep_until ◌>>=◌ ◌>>◌ pure gets modify
    call
one_round = then_step at_start (ran sol_balance [] 0 out_of_fuel later (inl refl) refl)

Reaches-Gated_example : Gated [] later
Reaches-Gated_example = Reaches-Gated world plain_ctx refl (tt, refl) one_round
