-- ===== src/Supervisor/Rounds.antt =====
-- The rounds of src/handlers/mod.rs: what they keep, when they pause, and how they stop.
use y_delta_crankers.Base.{ℕ, zero, suc, leb, ◌≡◌, refl, ◌∙◌, Bool, true, false, ◌&&◌, ◌∷◌}
use y_delta_crankers.System.Env.{Env, asked_stop, asked_instant}
use y_delta_crankers.System.Action.{
  State, Action, Result, ok, err, panicked, record_event, pure, gets, call, ◌>>=◌,
}
use y_delta_crankers.System.Rules.{
  After, Triple, Keeps, bind-Triple, bind-Keeps, then-Keeps, pure-Keeps, call-Keeps, modify-Keeps,
  gets-Keeps, attempt-Keeps, panic-Keeps,
}
use y_delta_crankers.System.Quiet.{Undisturbed}
use y_delta_crankers.Rpc.Retry.{sends, quiet-sends}
use y_delta_crankers.Supervisor
use y_delta_crankers.Supervisor.{Handler, Wake, stopping}

module _ {I X : State → Type 0} (u : Undisturbed I X) (env : Env) where
  pub unless_stopping-Keeps :
      (go : Action Wake) (stop : Bool)
      → Keeps I X go
      → Keeps I X (Supervisor.unless_stopping env go stop)
  unless_stopping-Keeps go true h = pure-Keeps _
  unless_stopping-Keeps go false h = h

  unless_due-Keeps :
      (deadline now : ℕ) (again : Action Wake) (due : Bool)
      → Keeps I X again
      → Keeps I X (Supervisor.unless_due env deadline now again due)
  unless_due-Keeps deadline now again true h = pure-Keeps _
  unless_due-Keeps deadline now again false h =
      then-Keeps (modify-Keeps _ (λ s i. u.quiet _ s tt i)) h

  pub load_stop-Keeps : Keeps I X (Supervisor.load_stop env)
  unfolding Supervisor.load_stop
  load_stop-Keeps = call-Keeps _ _ (λ s i. u.quiet _ s tt i)

  sleep_until-Keeps : (deadline fuel : ℕ) → Keeps I X (Supervisor.sleep_until env deadline fuel)
  unfolding Supervisor.sleep_until
  sleep_until-Keeps deadline zero = pure-Keeps _
  sleep_until-Keeps deadline (suc fuel) = bind-Keeps load_stop-Keeps λ stop.
      unless_stopping-Keeps _ stop (
        bind-Keeps (call-Keeps _ _ (λ s i. u.quiet _ s tt i)) λ now.
          unless_due-Keeps deadline now _ (leb deadline now) (sleep_until-Keeps deadline fuel))

  pub sleep_for-Keeps : (fuel total : ℕ) → Keeps I X (Supervisor.sleep_for env fuel total)
  unfolding Supervisor.sleep_for
  sleep_for-Keeps fuel total =
      bind-Keeps (call-Keeps _ _ (λ s i. u.quiet _ s tt i)) (λ now. sleep_until-Keeps _ fuel)

  outcome_of-Keeps : (r : Result (Unit {0})) → Keeps I X (Supervisor.outcome_of env r)
  outcome_of-Keeps (ok v) = pure-Keeps _
  outcome_of-Keeps (err e) = pure-Keeps _
  outcome_of-Keeps panicked = panic-Keeps u.crash

  run_tick-Keeps :
      (handler : Handler) (skip : Bool)
      → Keeps I X handler.tick
      → Keeps I X (Supervisor.run_tick env handler skip)
  unfolding Supervisor.run_tick
  run_tick-Keeps handler true h = pure-Keeps _
  run_tick-Keeps handler false h = bind-Keeps (attempt-Keeps h) outcome_of-Keeps

  -- A round keeps what its tick keeps.
  pub round-Keeps :
      (handler : Handler) (interval fuel : ℕ)
      → Keeps I X handler.tick
      → Keeps I X (Supervisor.round env handler interval fuel)
  unfolding Supervisor.round
  round-Keeps handler interval fuel h = bind-Keeps load_stop-Keeps λ stop.
      unless_stopping-Keeps _ stop (
        bind-Keeps (gets-Keeps _)
          λ skip. bind-Keeps (run_tick-Keeps handler skip h) (λ o. sleep_for-Keeps fuel interval))

-- The fee payer is low, and so many transactions have been sent.
abbrev pub Paused : ℕ → State → Type 0
Paused n s = (s.fee_payer_low ≡ true) × (sends s.history ≡ n)

pause_reads : (n : ℕ) → Undisturbed (Paused n) (Paused n)
pause_reads n = record {
  quiet = λ e s q p. (p.0, quiet-sends e s.history q ∙ p.1);
  recached = λ c s p. p;
  crash = λ s p. p;
}

module _ (env : Env) (handler : Handler) (pays : handler.requires_fee_payer ≡ true) (n : ℕ) where
  -- The tick is skipped.
  skip-Triple :
      Triple
        (Paused n)
        (Paused n)
        (Paused n)
        (gets (λ s. handler.requires_fee_payer && s.fee_payer_low))
        (λ skip s. Paused n s × (skip ≡ true))
  unfolding gets
  skip-Triple = record { run = λ s p. (p, rw pays p.0) }

  skipped-Triple :
      (skip : Bool)
      → Triple
          (Paused n)
          (Paused n)
          (λ s. Paused n s × (skip ≡ true))
          (Supervisor.run_tick env handler skip)
          (λ _. Paused n)
  unfolding Supervisor.run_tick pure
  skipped-Triple true = record { run = λ s p. p.0 }
  skipped-Triple false = record { run = λ s p. cc (p.1) }

  round-Paused :
      (interval fuel : ℕ) → Keeps (Paused n) (Paused n) (Supervisor.round env handler interval fuel)
  unfolding Supervisor.round
  round-Paused interval fuel = bind-Keeps (load_stop-Keeps (pause_reads n) env) λ stop.
      unless_stopping-Keeps (pause_reads n) env _ stop (
        bind-Triple _ skip-Triple λ skip.
          bind-Triple (λ _. Paused n) (skipped-Triple skip)
            (λ o. sleep_for-Keeps (pause_reads n) env fuel interval))

  after_round-Paused :
      (again : Action Wake) (ended : Wake)
      → Keeps (Paused n) (Paused n) again
      → Keeps (Paused n) (Paused n) (Supervisor.after_round env again ended)
  after_round-Paused again Supervisor.woke h = h
  after_round-Paused again Supervisor.stopping h = pure-Keeps _
  after_round-Paused again Supervisor.out_of_fuel h = pure-Keeps _

  rounds-Keeps :
      (interval fuel turns : ℕ)
      → Keeps (Paused n) (Paused n) (Supervisor.rounds env handler interval fuel turns)
  unfolding Supervisor.rounds
  rounds-Keeps interval fuel zero = pure-Keeps _
  rounds-Keeps interval fuel (suc turns) =
      bind-Keeps (round-Paused interval fuel)
        λ ended. after_round-Paused _ ended (rounds-Keeps interval fuel turns)

-- If a handler needs the fee payer, and the fee payer is low, then whatever its tick would do, the
-- handler's loop runs any number of turns without a transaction being sent: the number of those
-- sent stays, and the fee payer stays low.
pub rounds-Paused :
    (env : Env) (handler : Handler) (interval fuel turns : ℕ) (s : State)
    → handler.requires_fee_payer ≡ true
    → s.fee_payer_low ≡ true
    → After
        (Paused (sends s.history))
        (Paused (sends s.history))
        (λ _. Paused (sends s.history))
        (Supervisor.rounds env handler interval fuel turns s)
rounds-Paused env handler interval fuel turns s pays low =
    (rounds-Keeps env handler pays (sends s.history) interval fuel turns).run s (low, refl)

stopped-sleep :
    (env : Env) (interval fuel : ℕ) (t : State)
    → env.stop_flag (asked_instant ∷ t.history) ≡ true
    → Supervisor.sleep_for env (suc fuel) interval t
      ≡ (ok stopping, record_event asked_stop (record_event asked_instant t))
unfolding Supervisor.sleep_for Supervisor.sleep_until Supervisor.load_stop ◌>>=◌ call pure
stopped-sleep env interval fuel t e = rw e refl

-- If the process is told to stop while a round is at its tick, or paused in place of one (the flag
-- is off when the round begins and on when that has ended), then the handler's loop, however many
-- turns it had left, ends by the flag with no other tick and no sleep: the state is the one left
-- then, with one reading of the clock and one of the flag.
pub rounds-stopping :
    (env : Env) (handler : Handler) (interval fuel turns : ℕ) (s t : State) (o : Supervisor.Outcome)
    → env.stop_flag s.history ≡ false
    → Supervisor.run_tick env handler
        (handler.requires_fee_payer && s.fee_payer_low)
        (record_event asked_stop s)
      ≡ (ok o, t)
    → env.stop_flag (asked_instant ∷ t.history) ≡ true
    → Supervisor.rounds env handler interval (suc fuel) (suc turns) s
      ≡ (ok stopping, record_event asked_stop (record_event asked_instant t))
unfolding Supervisor.rounds Supervisor.round Supervisor.load_stop ◌>>=◌ call gets pure
rounds-stopping env handler interval fuel turns s t o on done off =
    rw on (rw done (rw (stopped-sleep env interval fuel t off) refl))
