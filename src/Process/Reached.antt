-- ===== src/Process/Reached.antt =====
-- What holds in every state that the process of src/main.rs reaches.
use y_delta_crankers.Base.{◌&&◌, ◌≡◌, refl, inl, inr, Bool, true, false, List, [], ◌∷◌, subst}
use y_delta_crankers.System.Env.{Env}
use y_delta_crankers.System.Action.{State, Result, ok}
use y_delta_crankers.System.Rules.{After}
use y_delta_crankers.Rpc.Allowed.{Policy, Sent, Allowed}
use y_delta_crankers.Rpc.Gate.{Passed, Lets, Gated}
use y_delta_crankers.Process.Rounds.{Covers, round_of-Allowed}
use y_delta_crankers.Handlers.Context.{HandlerContext}
use y_delta_crankers.Supervisor.{Wake}
use y_delta_crankers.Process.{
  is_some, warm_keeper, Task, promoter, claimer, liquidator, curator_fee_claimer, match_cranker,
  sol_balance, ata_balance, bank_refresh, IsTaskOf, Step, ran, Reaches, at_start, then_step, tasks,
  spawned, enabled,
}

behind :
    (C : Task → Type 0) (flag : Bool) (other task : Task) (rest : List Task)
    → IsTaskOf task (enabled flag other rest)
    → (flag ≡ true → C other)
    → (IsTaskOf task rest → C task)
    → C task
behind C true other task rest (inl e) first later = subst C e (first refl)
behind C true other task rest (inr m) first later = later m
behind C false other task rest m first later = later m

off_and_on : {b : Bool} → b ≡ true → b ≡ false → ⊥
off_and_on e f = cc (e, f)

and-left : (a b : Bool) → a && b ≡ true → a ≡ true
and-left true b e = refl
and-left false b e = cc

-- What holds of every task holds of those that the process has, and of the two that do not simulate
-- what they send it is needed only if they are enabled.
module _ (C : Task → Type 0) (ctx : HandlerContext) (warmkeeper_enabled : Bool)
    (claims : ctx.cfg.handlers.curator_fee_claimer_enabled ≡ true → C curator_fee_claimer)
    (warms : warmkeeper_enabled ≡ true → C warm_keeper)
    (others : (task : Task)
      → (task ≡ curator_fee_claimer → ⊥)
      → (task ≡ warm_keeper → ⊥)
      → C task) where
  spawned-all : (task : Task) → IsTaskOf task (spawned ctx.cfg.handlers) → C task
  unfolding spawned
  spawned-all task m =
      behind C ctx.cfg.handlers.promoter_enabled promoter task _ m
        (λ f. others promoter (λ e. cc e) (λ e. cc e))
        λ m2.
          behind C ctx.cfg.handlers.claimer_enabled claimer task _ m2
            (λ f. others claimer (λ e. cc e) (λ e. cc e))
            λ m3.
              behind C ctx.cfg.handlers.liquidator_enabled liquidator task _ m3
                (λ f. others liquidator (λ e. cc e) (λ e. cc e))
                λ m4.
                  behind C ctx.cfg.handlers.curator_fee_claimer_enabled curator_fee_claimer task _
                    m4 claims
                    λ m5.
                      behind C ctx.cfg.handlers.match_cranker_enabled match_cranker task [] m5
                        (λ f. others match_cranker (λ e. cc e) (λ e. cc e)) (λ m6. absurd m6)

  loops-all :
      (task : Task)
      → IsTaskOf task (sol_balance ∷ ata_balance ∷ bank_refresh ∷ spawned ctx.cfg.handlers)
      → C task
  loops-all task (inl e) = subst C e (others sol_balance (λ e. cc e) (λ e. cc e))
  loops-all task (inr (inl e)) = subst C e (others ata_balance (λ e. cc e) (λ e. cc e))
  loops-all task (inr (inr (inl e))) = subst C e (others bank_refresh (λ e. cc e) (λ e. cc e))
  loops-all task (inr (inr (inr m))) = spawned-all task m

  tasks-all :
      (task : Task)
      → IsTaskOf task (tasks warmkeeper_enabled ctx.swb_cranker ctx.cfg.handlers)
      → C task
  unfolding tasks
  tasks-all task m =
      behind C (warmkeeper_enabled && is_some ctx.swb_cranker) warm_keeper task _ m
        (λ f. warms (and-left warmkeeper_enabled _ f)) (loops-all task)

ok-Allowed :
    (P : Policy) (r : Result Wake × State) (ended : Wake) (t : State)
    → r ≡ (ok ended, t)
    → After (Allowed P []) (Sent P) (λ _. Allowed P []) r
    → Allowed P [] t
ok-Allowed P r ended t e a = subst (After (Allowed P []) (Sent P) (λ _. Allowed P [])) e a

other-Covers :
    (P : Policy) (env : Env) (ctx : HandlerContext) (task : Task)
    → (task ≡ curator_fee_claimer → ⊥)
    → (task ≡ warm_keeper → ⊥)
    → Covers P env ctx task
other-Covers P env ctx curator_fee_claimer c w = absurd (c refl)
other-Covers P env ctx warm_keeper c w = absurd (w refl)
other-Covers P env ctx promoter c w = tt
other-Covers P env ctx claimer c w = tt
other-Covers P env ctx liquidator c w = tt
other-Covers P env ctx match_cranker c w = tt
other-Covers P env ctx sol_balance c w = tt
other-Covers P env ctx ata_balance c w = tt
other-Covers P env ctx bank_refresh c w = tt

-- A policy that covers the enabled tasks holds in the states that the process reaches.
module _ (P : Policy) (lets : Lets P) (env : Env) (ctx : HandlerContext) (warmkeeper_enabled : Bool)
    (claims : ctx.cfg.handlers.curator_fee_claimer_enabled ≡ true
      → Covers P env ctx curator_fee_claimer)
    (warms : warmkeeper_enabled ≡ true → Covers P env ctx warm_keeper) where
  Step-Allowed :
      {s t : State} → Step env ctx warmkeeper_enabled s t → Allowed P [] s → Allowed P [] t
  Step-Allowed {s} (ran task order fuel ended t m e) a = ok-Allowed P _ ended t e (
      (round_of-Allowed P lets env ctx order fuel task (
          tasks-all (Covers P env ctx) ctx warmkeeper_enabled claims warms (other-Covers P env ctx)
            task m)).run
        s a)

  pub Reaches-Allowed :
      {s t : State} → Allowed P [] s → Reaches env ctx warmkeeper_enabled s t → Allowed P [] t
  Reaches-Allowed a at_start = a
  Reaches-Allowed a (then_step r step) = Step-Allowed step (Reaches-Allowed a r)

-- If neither the curator-fee claimer nor the warm-keeper of the oracles is enabled, and in some
-- state no key is in flight and each transaction in the history was sent after a passing
-- simulation of its instructions (those for the compute budget in front aside), then the same
-- holds in every state that the process reaches from that one by rounds of the tasks it spawns, in
-- any order and with any answers of the environment.
pub Reaches-Gated :
    (env : Env) (ctx : HandlerContext) {s t : State}
    → ctx.cfg.handlers.curator_fee_claimer_enabled ≡ false
    → Gated [] s
    → Reaches env ctx false s t
    → Gated [] t
Reaches-Gated env ctx off g r =
    Reaches-Allowed Passed (λ h m p. p) env ctx false (λ e. absurd (off_and_on e off)) (λ e. cc e) g
      r
