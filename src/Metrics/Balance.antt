-- ===== src/Metrics/Balance.antt =====
-- The fee payer's flag (src/metrics.rs) follows the balances that the node reports.
use y_delta_crankers.Base.{ℕ, ltb, ◌≡◌, refl, Bool, inl, inr, Bool-cases}
use y_delta_crankers.System.Env.{Env, Reply, reply, refused}
use y_delta_crankers.System.Action.{State, pure, gets, modify, ◌>>=◌}
use y_delta_crankers.Handlers.Context.{HandlerContext}
use y_delta_crankers.Metrics

-- What the flag is after a reply, given what it was.
abbrev pub flag_after : ℕ → Bool → Reply ℕ → Bool
flag_after minimum was (reply lamports) = ltb lamports minimum
flag_after minimum was (refused e) = was

-- After a reading of the fee payer's balance, the flag says whether the balance is below the
-- configured minimum, whatever it said before; where the reading failed, it is as it was.
pub note_balance-flag :
    (env : Env) (ctx : HandlerContext) (r : Reply ℕ) (s : State)
    → (Metrics.note_balance env ctx r s).1.fee_payer_low
      ≡ flag_after ctx.cfg.min_signer_balance_lamports s.fee_payer_low r
unfolding Metrics.note_balance ◌>>=◌ gets modify pure
note_balance-flag env ctx (refused e) s = refl
note_balance-flag env ctx (reply lamports) s =
    elim (Bool-cases (ltb lamports ctx.cfg.min_signer_balance_lamports)) [
      | inl e ↦ elim (Bool-cases s.fee_payer_low) [
        | inl d ↦ rw e (rw d refl)
        | inr d ↦ rw e (rw d refl)
      ]
      | inr e ↦ elim (Bool-cases s.fee_payer_low) [
        | inl d ↦ rw e (rw d refl)
        | inr d ↦ rw e (rw d refl)
      ]
    ]
