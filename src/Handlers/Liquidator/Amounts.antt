-- ===== src/Handlers/Liquidator/Amounts.antt =====
-- src/handlers/liquidator.rs: the numbers that decide about a loan: the static pre-filter,
-- maturity, the expected bonus, and the size of the repayment.
use y_delta_crankers.Base.{
  ℕ, ◌-◌, ◌*◌, ◌/◌, min, max, ltb, leb, ◌==◌, Bool, ◌||◌, Option, none, some, u128_max,
  if◌then◌else◌,
}
use y_delta_crankers.Base.Int.{ℤ, pos, leb_ℤ, as_i64, saturating_add_i64, wrapping_add_i64}
use y_delta_crankers.Base.Float.{f64_of_u64, div_f64, mul_f64, clamp_as_u32}
use y_delta_crankers.System.Types.{LoanView, MarketView}
use y_delta_crankers.System.Env.{Env}
use y_delta_crankers.Handlers.Util.{p2pool_full_repay_staged_atoms, min_partial_repay_atoms}

abbrev pub repay_full : ℕ
repay_full = 0

abbrev pub static_ltv_prefilter_bps : ℕ
static_ltv_prefilter_bps = 10_500

unfoldable pub static_accrued_ratio_bps : ℕ → ℕ → ℕ
unfolding f64_of_u64 div_f64 mul_f64 clamp_as_u32
static_accrued_ratio_bps outstanding_debt_atoms principal_debt_atoms =
    if principal_debt_atoms == 0
    then 0
    else clamp_as_u32 (
        mul_f64 (div_f64 (f64_of_u64 outstanding_debt_atoms) (f64_of_u64 principal_debt_atoms))
          (record { num = 10_000; den = 1 }))

unfoldable pub effective_grace : MarketView → ℕ → ℤ
effective_grace market extra_buffer =
    wrapping_add_i64 (pos market.grace_period_seconds) (as_i64 extra_buffer)

unfoldable pub is_matured : ℤ → LoanView → ℤ → Bool
is_matured t_now loan grace = leb_ℤ (saturating_add_i64 loan.matures_at_unix grace) t_now

unfoldable pub expected_bonus : MarketView → LoanView → ℕ
expected_bonus market loan =
    if ltb 0 market.liquidation_keeper_bps
    then min (loan.outstanding_debt_atoms * market.liquidation_keeper_bps) u128_max / 10_000
    else loan.outstanding_debt_atoms

module _ (env : Env) where
  unfoldable pub is_p2pool : LoanView → Bool
  is_p2pool loan = loan.loan_type == env.loan_type_p2pool

  unfoldable pub maybe_ltv_breach : LoanView → Bool
  maybe_ltv_breach loan =
      is_p2pool loan
      || leb static_ltv_prefilter_bps
          (static_accrued_ratio_bps loan.outstanding_debt_atoms loan.principal_debt_atoms)

-- What is left to repay, as far as the body of the loan tells.
unfoldable pub outstanding_estimate : Bool → LoanView → ℕ
outstanding_estimate p2pool loan =
    if p2pool
    then max loan.outstanding_debt_atoms loan.principal_debt_atoms
    else loan.outstanding_debt_atoms

unfoldable pub full_required : Bool → ℕ → ℕ
full_required p2pool estimate = if p2pool then p2pool_full_repay_staged_atoms estimate else estimate

-- The part of `pick_repay_amount` behind the balance.
unfoldable pub repay_amount : Bool → ℕ → ℕ → Option ℕ
repay_amount p2pool estimate ata_balance =
    if leb (full_required p2pool estimate) ata_balance
    then some repay_full
    else if ltb ata_balance (min_partial_repay_atoms estimate)
    then none
    else some (min ata_balance (estimate - 1))
