-- ===== src/Supervisor.antt =====
-- src/handlers/mod.rs `spawn`: the loop around a handler. A round is a tick, unless the fee payer
-- is low, and a sleep that ends early when the process is told to stop. Times are in milliseconds;
-- the counters and the log lines of the rounds are left out.
pub mod Sleep
pub mod Rounds
use y_delta_crankers.Base.{
  ℕ, zero, suc, ◌+◌, ◌-◌, ◌*◌, min, leb, Bool, true, false, ◌&&◌, if◌then◌else◌,
}
use y_delta_crankers.System.Env.{Env, asked_stop, asked_instant, slept}
use y_delta_crankers.System.Action.{
  State, Action, Result, ok, err, panicked, pure, panic, gets, modify, call, attempt, record_event,
  ◌>>=◌, ◌>>◌,
}

-- How a sleep or a round ends: at its deadline, by the stop flag, or with no fuel left.
pub data Wake : Type 0 where
  woke stopping out_of_fuel : Wake

-- What a round did.
pub data Outcome : Type 0 where
  ticked failed paused_low_balance : Outcome

-- The trait `Handler`.
pub record Handler : Type 0 where
  pub requires_fee_payer : Bool
  pub tick : Action (Unit {0})

module _ (env : Env) where
  -- `stop.load(..)`
  unfoldable pub load_stop : Action Bool
  load_stop = call asked_stop env.stop_flag

  abbrev pub unless_stopping : Action Wake → Bool → Action Wake
  unless_stopping go true = pure stopping
  unless_stopping go false = go

  abbrev pub unless_due : ℕ → ℕ → Action Wake → Bool → Action Wake
  unless_due deadline now again true = pure woke
  unless_due deadline now again false =
      modify (record_event (slept (min (deadline - now) 1_000))) >> again

  -- The sleep in steps of at most a second, by the steps that are left.
  unfoldable pub sleep_until : ℕ → ℕ → Action Wake
  sleep_until deadline zero = pure out_of_fuel
  sleep_until deadline (suc fuel) = do
    stop ← load_stop
    unless_stopping
        (do
          now ← call asked_instant env.instant
          unless_due deadline now (sleep_until deadline fuel) (leb deadline now))
        stop

  -- From now on, for so long.
  unfoldable pub sleep_for : ℕ → ℕ → Action Wake
  sleep_for fuel total = do now ← call asked_instant env.instant; sleep_until (now + total) fuel

  -- An error is logged and counted, and the loop goes on; a panic ends the process.
  abbrev pub outcome_of : Result (Unit {0}) → Action Outcome
  outcome_of (ok u) = pure ticked
  outcome_of (err e) = pure failed
  outcome_of panicked = panic

  unfoldable pub run_tick : Handler → Bool → Action Outcome
  run_tick handler true = pure paused_low_balance
  run_tick handler false = do r ← attempt handler.tick; outcome_of r

  -- One turn of the loop.
  unfoldable pub round : Handler → ℕ → ℕ → Action Wake
  round handler interval fuel = do
    stop ← load_stop
    unless_stopping
        (do
          should_skip ← gets (λ s. handler.requires_fee_payer && s.fee_payer_low)
          outcome ← run_tick handler should_skip
          sleep_for fuel interval)
        stop

  abbrev pub after_round : Action Wake → Wake → Action Wake
  after_round again woke = again
  after_round again stopping = pure stopping
  after_round again out_of_fuel = pure out_of_fuel

  -- The loop, for so many turns.
  unfoldable pub rounds : Handler → ℕ → ℕ → ℕ → Action Wake
  rounds handler interval fuel zero = pure out_of_fuel
  rounds handler interval fuel (suc turns) = do
    ended ← round handler interval fuel
    after_round (rounds handler interval fuel turns) ended
