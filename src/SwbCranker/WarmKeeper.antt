-- ===== src/SwbCranker/WarmKeeper.antt =====
-- src/swb_cranker.rs `spawn_swb_crank_loop`: the optional loop that keeps the oracles' feeds fresh.
use y_delta_crankers.Base.{ℕ, zero, suc, List, [], ◌∷◌, Option}
use y_delta_crankers.System.Types.{Pubkey, Signature}
use y_delta_crankers.System.Env.{Env, slept}
use y_delta_crankers.System.Action.{
  Action, Result, ok, err, panicked, record_event, pure, panic, gets, modify, attempt, ◌>>=◌, ◌>>◌,
}
use y_delta_crankers.BankRegistry.{switchboard_pull_oracles}
use y_delta_crankers.Supervisor.{Wake, woke, load_stop, unless_stopping}
use y_delta_crankers.SwbCranker.{SwbCranker, crank}

module _ (env : Env) (cranker : SwbCranker) where
  -- A failed update is logged, and the loop goes on.
  abbrev pub posted : Result (Option Signature) → Action (Unit {0})
  posted (ok sig) = pure tt
  posted (err e) = pure tt
  posted panicked = panic

  abbrev pub post_update : List Pubkey → Action (Unit {0})
  post_update [] = pure tt
  post_update (oracle ∷ oracles) = do r ← attempt (crank env cranker (oracle ∷ oracles)); posted r

  -- A sleep of so many steps of half a second.
  unfoldable pub sleep_steps : ℕ → Action Wake
  sleep_steps zero = pure woke
  sleep_steps (suc steps) = do
    stop ← load_stop env
    unless_stopping env (modify (record_event (slept 500)) >> sleep_steps steps) stop

  -- One turn, with the interval of 60 seconds that main gives.
  unfoldable pub swb_crank_round : Action Wake
  swb_crank_round = do
    stop ← load_stop env
    unless_stopping env
        (do
          banks ← gets (λ s. s.banks)
          post_update (switchboard_pull_oracles banks)
          sleep_steps 120)
        stop
