-- ===== src/Supervisor/Sleep.antt =====
-- The sleep of src/handlers/mod.rs ends.
use y_delta_crankers.Base.{
  ℕ, zero, suc, ◌+◌, ◌-◌, ◌*◌, ◌≤◌, min, leb, ◌≡◌, refl, Bool, true, false, ◌∷◌, arith,
}
use y_delta_crankers.System.Env.{Env, History, asked_stop, asked_instant, slept}
use y_delta_crankers.System.Action.{State, Action, Result, ok, pure, call, modify, ◌>>=◌, ◌>>◌}
use y_delta_crankers.Supervisor

-- The clock goes on at least as far as a sleep is long.
abbrev pub Advances : Env → Type 0
Advances env =
    (d : ℕ) (h : History)
    → env.instant h + d ≤ env.instant (asked_stop ∷ slept d ∷ asked_instant ∷ h)

-- The sleep ended, by its deadline or by the stop flag.
abbrev pub HasEnded : Result Supervisor.Wake × State → Type 0
HasEnded (ok Supervisor.woke, s) = Unit
HasEnded (ok Supervisor.stopping, s) = Unit
HasEnded _ = ⊥

-- The time that is left after a sleep, where it ended before the deadline.
less_left :
    (deadline now later n : ℕ)
    → deadline ≤ now + 1_000 * suc n
    → leb deadline now ≡ false
    → now + min (deadline - now) 1_000 ≤ later
    → deadline ≤ later + 1_000 * n
less_left deadline now later n h d a = ground (arith, h, d, a)

out_of_time : (deadline now : ℕ) → deadline ≤ now + 1_000 * 0 → leb deadline now ≡ true
out_of_time deadline now h = ground (arith, h)

module _ (env : Env) (advances : Advances env) (deadline : ℕ) where
  -- With so many steps left, the rest of the sleep ends.
  abbrev Rest : ℕ → Action Supervisor.Wake → Type 0
  Rest n again =
      (s : State) → deadline ≤ env.instant (asked_stop ∷ s.history) + 1_000 * n → HasEnded (again s)

  unless_due-ends :
      (n : ℕ) (again : Action Supervisor.Wake) (h : History) (s : State) (due : Bool)
      → Rest n again
      → deadline ≤ env.instant h + 1_000 * suc n
      → leb deadline (env.instant h) ≡ due
      → s.history ≡ asked_instant ∷ h
      → HasEnded (Supervisor.unless_due env deadline (env.instant h) again due s)
  unfolding pure modify ◌>>=◌ ◌>>◌
  unless_due-ends n again h s true rest left d e = tt
  unless_due-ends n again h s false rest left d e =
      rest _ (rw e (less_left deadline (env.instant h) _ n left d (advances _ h)))

  at_deadline :
      (again : Action Supervisor.Wake) (h : History) (s : State)
      → deadline ≤ env.instant h + 1_000 * 0
      → HasEnded (
          Supervisor.unless_due env deadline (env.instant h) again (leb deadline (env.instant h)) s)
  unfolding pure
  at_deadline again h s left = rw (out_of_time deadline (env.instant h) left) tt

  unless_stopping-ends :
      (go : Action Supervisor.Wake) (s : State) (stop : Bool)
      → HasEnded (go s)
      → HasEnded (Supervisor.unless_stopping env go stop s)
  unfolding pure
  unless_stopping-ends go s true h = tt
  unless_stopping-ends go s false h = h

  sleep_until-Rest : (n : ℕ) → Rest n (Supervisor.sleep_until env deadline (suc n))
  unfolding Supervisor.sleep_until Supervisor.load_stop call ◌>>=◌
  sleep_until-Rest zero s left =
      unless_stopping-ends _ _ (env.stop_flag s.history)
        (at_deadline _ (asked_stop ∷ s.history) _ left)
  sleep_until-Rest (suc n) s left = unless_stopping-ends _ _ (env.stop_flag s.history) (
      unless_due-ends n _ (asked_stop ∷ s.history) _ _ (λ t l. sleep_until-Rest n t l) left refl
        refl)

-- If the clock goes on, from one reading to the next, at least as far as the sleep between them is
-- long, then the sleep of a handler's loop ends, by the stop flag or at its deadline: for an
-- interval of at most `n` seconds, `n + 1` steps of at most a second are enough.
pub sleep_until-HasEnded :
    (env : Env) (deadline n : ℕ) (s : State)
    → Advances env
    → deadline ≤ env.instant (asked_stop ∷ s.history) + 1_000 * n
    → HasEnded (Supervisor.sleep_until env deadline (suc n) s)
sleep_until-HasEnded env deadline n s advances left =
    sleep_until-Rest env advances deadline n s left
