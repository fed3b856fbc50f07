-- ===== src/Handlers/Liquidator/Quiet.antt =====
-- The reads of the liquidator (src/handlers/liquidator.rs) send nothing: they keep any invariant
-- that only sends disturb.
use y_delta_crankers.Base.{List, Option, none, some, ℕ}
use y_delta_crankers.System.Types.{Pubkey, BankInfo, LoanView}
use y_delta_crankers.System.Env.{Env}
use y_delta_crankers.System.Action.{State, Result, ok, err, panicked}
use y_delta_crankers.System.Rules.{
  Keeps, bind-Keeps, if-Keeps, pure-Keeps, gets-Keeps, or_fail-Keeps, attempt-Keeps, panic-Keeps,
}
use y_delta_crankers.System.Quiet.{Undisturbed}
use y_delta_crankers.Rpc.Reads.{get_account_data-Keeps}
use y_delta_crankers.SwbCranker.{SwbCranker, Bundle}
use y_delta_crankers.SwbCranker.Quiet.{fetch_update_ixs-Keeps}
use y_delta_crankers.Handlers.Context.{HandlerContext, banks_snapshot}
use y_delta_crankers.Handlers.Liquidator

module _ {I X : State → Type 0} (u : Undisturbed I X) (env : Env) (ctx : HandlerContext) where
  pub or_empty-Keeps : (r : Result Bundle) → Keeps I X (Liquidator.or_empty r)
  unfolding Liquidator.or_empty
  or_empty-Keeps (ok bundle) = pure-Keeps _
  or_empty-Keeps (err e) = pure-Keeps _
  or_empty-Keeps panicked = panic-Keeps u.crash

  bundle_from-Keeps :
      (cranker : Option SwbCranker) (bank : BankInfo)
      → Keeps I X (Liquidator.bundle_from env ctx cranker bank)
  bundle_from-Keeps none bank = pure-Keeps _
  bundle_from-Keeps (some cranker) bank =
      bind-Keeps (attempt-Keeps (fetch_update_ixs-Keeps u env cranker _)) or_empty-Keeps

  pub fetch_swb_bundle-Keeps :
      (bank : BankInfo) → Keeps I X (Liquidator.fetch_swb_bundle env ctx bank)
  unfolding Liquidator.fetch_swb_bundle
  fetch_swb_bundle-Keeps bank = if-Keeps _ (pure-Keeps _) (bundle_from-Keeps ctx.swb_cranker bank)

  pub bank_pair-Keeps :
      (debt collateral : Pubkey) → Keeps I X (Liquidator.bank_pair env ctx debt collateral)
  unfolding Liquidator.bank_pair banks_snapshot
  bank_pair-Keeps debt collateral =
      bind-Keeps (gets-Keeps _) λ banks.
        bind-Keeps (or_fail-Keeps _ _) λ d. bind-Keeps (or_fail-Keeps _ _) λ c. pure-Keeps _

  pub pick_repay_amount-Keeps :
      (ata : Pubkey) (loan : LoanView) → Keeps I X (Liquidator.pick_repay_amount env ctx ata loan)
  unfolding Liquidator.pick_repay_amount
  pick_repay_amount-Keeps ata loan =
      bind-Keeps (get_account_data-Keeps u env ctx.rpc ata) amount_from-Keeps
    where
      amount_from-Keeps :
          (acct : Option (List ℕ)) → Keeps I X (Liquidator.amount_from env ctx loan acct)
      amount_from-Keeps none = pure-Keeps _
      amount_from-Keeps (some bytes) = bind-Keeps (or_fail-Keeps _ _) λ b. pure-Keeps _
