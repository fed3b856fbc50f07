-- ===== src/Rpc/Reads.antt =====
-- Reading an account (src/rpc.rs) keeps any invariant that only sends disturb.
use y_delta_crankers.System.Types.{Pubkey, Account}
use y_delta_crankers.System.Env.{Env, Reply, reply, refused}
use y_delta_crankers.System.Action.{State}
use y_delta_crankers.System.Rules.{Keeps, bind-Keeps, if-Keeps, pure-Keeps, fail-Keeps, call-Keeps}
use y_delta_crankers.System.Quiet.{Undisturbed}
use y_delta_crankers.Rpc

module _ {I X : State → Type 0} (u : Undisturbed I X) (env : Env) (rpc : Rpc.Rpc) where
  pub get_account_data-Keeps : (pk : Pubkey) → Keeps I X (Rpc.get_account_data env rpc pk)
  unfolding Rpc.get_account_data
  get_account_data-Keeps pk =
      bind-Keeps (call-Keeps _ _ (λ s i. u.quiet _ s tt i)) account_data-Keeps
    where
      account_data-Keeps : (r : Reply Account) → Keeps I X (Rpc.account_data env rpc r)
      account_data-Keeps (reply a) = pure-Keeps _
      account_data-Keeps (refused e) = if-Keeps _ (pure-Keeps _) (fail-Keeps _)
