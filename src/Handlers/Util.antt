-- ===== src/Handlers/Util.antt =====
-- src/handlers/util.rs: the clock, the amount field of a token account, the staging margin of a
-- full P2Pool repayment and the floor of a partial one.
use y_delta_crankers.Base.{
  ℕ, ◌/◌, max, Option, none, some, List, get_range, le_value, saturating_add,
}
use y_delta_crankers.Base.Int.{ℤ, pos, as_i64}
use y_delta_crankers.System.Env.{Env, asked_time}
use y_delta_crankers.System.Action.{Action, call, pure, ◌>>=◌}

abbrev pub seconds : Option ℕ → ℤ
seconds none = pos 0
seconds (some n) = as_i64 n

module _ (env : Env) where
  unfoldable pub now_unix : Action ℤ
  now_unix = do t ← call asked_time env.system_time; pure (seconds t)

abbrev value_of : Option (List ℕ) → Option ℕ
value_of none = none
value_of (some bytes) = some (le_value bytes)

unfoldable pub spl_token_amount : List ℕ → Option ℕ
spl_token_amount bytes = value_of (get_range bytes 64 72)

unfoldable pub p2pool_full_repay_staged_atoms : ℕ → ℕ
p2pool_full_repay_staged_atoms repay_atoms =
    saturating_add (saturating_add repay_atoms (repay_atoms / 50)) 64

unfoldable pub min_partial_repay_atoms : ℕ → ℕ
min_partial_repay_atoms outstanding = max (outstanding / 100) 1_000
