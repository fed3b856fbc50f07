-- ===== src/Handlers/Liquidator/Bundled.antt =====
-- The bundles that the liquidator (src/handlers/liquidator.rs) and the match-cranker put in front
-- of their instructions.
use y_delta_crankers.Base.{◌≡◌, inl, refl, List, [], ◌∷◌, Option, none, some}
use y_delta_crankers.System.Types.{Pubkey, BankInfo}
use y_delta_crankers.System.Env.{Env}
use y_delta_crankers.System.Action.{State, Result, ok, err, panicked, pure, panic, attempt, ◌>>=◌}
use y_delta_crankers.System.Rules.{Triple, OfOk, bind-Triple, attempt-OfOk, if-Triple}
use y_delta_crankers.System.Quiet.{Undisturbed}
use y_delta_crankers.BankRegistry.{primary_oracle}
use y_delta_crankers.SwbCranker.{SwbCranker, Bundle, fetch_update_ixs}
use y_delta_crankers.SwbCranker.Fetched.{IsUpdateOf, fetch_update_ixs-Triple}
use y_delta_crankers.Handlers.Context.{HandlerContext}
use y_delta_crankers.Handlers.Liquidator

-- Nothing, or what one of the gateways of the cranker, which there is then, gave for the feeds.
abbrev pub IsBundle : Env → Option SwbCranker → List Pubkey → Bundle → Type 0
IsBundle env none oracles bundle = bundle ≡ ([], [])
IsBundle env (some cranker) oracles bundle = IsUpdateOf env cranker oracles bundle

pub empty-IsBundle :
    (env : Env) (cranker : Option SwbCranker) (oracles : List Pubkey)
    → IsBundle env cranker oracles ([], [])
empty-IsBundle env none oracles = refl
empty-IsBundle env (some cranker) oracles = inl refl

module _ {I X : State → Type 0} (u : Undisturbed I X) (env : Env) where
  or_empty-Triple :
      (cranker : SwbCranker) (oracles : List Pubkey) (r : Result Bundle)
      → Triple I X
          (λ s. I s × OfOk (IsUpdateOf env cranker oracles) r)
          (Liquidator.or_empty r)
          (λ bundle s. I s × IsUpdateOf env cranker oracles bundle)
  unfolding Liquidator.or_empty pure panic
  or_empty-Triple cranker oracles (ok bundle) = record { run = λ s i. i }
  or_empty-Triple cranker oracles (err e) = record { run = λ s i. (i.0, inl refl) }
  or_empty-Triple cranker oracles panicked = record { run = λ s i. u.crash s i.0 }

  pub fetch_or_empty-Triple :
      (cranker : SwbCranker) (oracles : List Pubkey)
      → Triple I X I
          (attempt (fetch_update_ixs env cranker oracles) >>= Liquidator.or_empty)
          (λ bundle s. I s × IsUpdateOf env cranker oracles bundle)
  fetch_or_empty-Triple cranker oracles =
      bind-Triple _ (attempt-OfOk (fetch_update_ixs-Triple u env cranker oracles))
        (or_empty-Triple cranker oracles)

  module _ (ctx : HandlerContext) where
    bundle_from-Triple :
        (cranker : Option SwbCranker) (bank : BankInfo)
        → Triple I X I
            (Liquidator.bundle_from env ctx cranker bank)
            (λ bundle s. I s × IsBundle env cranker (primary_oracle bank ∷ []) bundle)
    unfolding pure
    bundle_from-Triple none bank = record { run = λ s i. (i, refl) }
    bundle_from-Triple (some cranker) bank = fetch_or_empty-Triple cranker _

    pub fetch_swb_bundle-Triple :
        (bank : BankInfo)
        → Triple I X I
            (Liquidator.fetch_swb_bundle env ctx bank)
            (λ bundle s. I s × IsBundle env ctx.swb_cranker (primary_oracle bank ∷ []) bundle)
    unfolding Liquidator.fetch_swb_bundle pure
    fetch_swb_bundle-Triple bank =
        if-Triple {m = pure ([], [])} _
          (λ e. record { run = λ s i. (i, empty-IsBundle env ctx.swb_cranker _) })
          (λ e. bundle_from-Triple ctx.swb_cranker bank)
