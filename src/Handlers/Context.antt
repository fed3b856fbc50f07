-- ===== src/Handlers/Context.antt =====
-- src/handlers/mod.rs `HandlerContext`: what every handler is given, and the lookups they share.
use y_delta_crankers.Base.{Option, Map, lookup}
use y_delta_crankers.System.Types.{Pubkey, BankInfo, Error}
use y_delta_crankers.System.Action.{Action, gets, or_fail}
use y_delta_crankers.Config.{Config}
use y_delta_crankers.Rpc.{Rpc}
use y_delta_crankers.Signer.{Signers}
use y_delta_crankers.SwbCranker.{SwbCranker}

-- The shared flags, the balances and the bank registry stand in the state.
pub record HandlerContext : Type 0 where
  pub cfg : Config
  pub rpc : Rpc
  pub signers : Signers
  pub swb_cranker : Option SwbCranker

-- `ctx.cfg.banks_snapshot()`
unfoldable pub banks_snapshot : Action (Map BankInfo)
banks_snapshot = gets (λ s. s.banks)

-- `banks.get(mint).ok_or_else(..)?`
abbrev pub bank_for : Map BankInfo → Pubkey → Error → Action BankInfo
bank_for banks mint missing = or_fail (lookup mint banks) missing
