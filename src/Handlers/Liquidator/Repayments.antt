-- ===== src/Handlers/Liquidator/Repayments.antt =====
-- Which loans the liquidator (src/handlers/liquidator.rs) repays, and why.
pub mod Loan
pub mod Scan
use y_delta_crankers.Base.{
  ℕ, ◌+◌, ◌≡◌, ◌≤◌, ◌<◌, ◌⊎◌, inl, inr, refl, sym, Bool, true, false, not, ◌||◌, ◌&&◌, ltb, leb,
  ◌==◌, List, [], ◌∷◌, ◌++◌, Option, none, some, arith, if◌then◌else◌, leb→le, subst, Bool-cases,
}
use y_delta_crankers.Base.Int.{ℤ, pos_part, neg_part, ◌≤ℤ◌, leb_ℤ, saturating_add_i64}
use y_delta_crankers.System.Types.{
  Pubkey, Lut, Instruction, RepayArgs, Label, label_settle, label_liquidate, settle_matured_loan,
  liquidate_loan, BankInfo, LoanView, MarketView, Message, ata_too_small,
}
use y_delta_crankers.System.Env.{Env, History}
use y_delta_crankers.System.Action.{Key, State, Result, ok, err, panicked, pure, ◌>>◌}
use y_delta_crankers.System.Rules.{
  After, Triple, Keeps, known-Triple, bind-Triple, bind-Keeps, then-Keeps, if-Keeps, if-Triple,
  pure-Keeps, or_fail-Keeps, call-Triple, attempt-Keeps, panic-Keeps, for_sum-Keeps, weaken-Triple,
}
use y_delta_crankers.System.Inflight.{guarded-Keeps}
use y_delta_crankers.Rpc
use y_delta_crankers.Rpc.Reads.{get_account_data-Keeps}
use y_delta_crankers.Rpc.Allowed.{
  Policy, AreSent, Sent, Allowed, message_reads, send_signed_v0_labeled-Allowed,
}
use y_delta_crankers.Rpc.Gate.{simulate_v0-Simulated}
use y_delta_crankers.ChainReader.Quiet.{list_markets-Keeps, list_loans_for_market-Keeps}
use y_delta_crankers.ChainReader.Sources.{IsListedMarket, IsListedLoan}
use y_delta_crankers.SwbCranker.{Bundle}
use y_delta_crankers.BankRegistry.{primary_oracle}
use y_delta_crankers.Handlers.Liquidator.Bundled.{IsBundle}
use y_delta_crankers.Handlers.Util.{
  now_unix, seconds, p2pool_full_repay_staged_atoms, min_partial_repay_atoms,
}
use y_delta_crankers.Handlers.Context.{HandlerContext}
use y_delta_crankers.Handlers.Liquidator
use y_delta_crankers.Handlers.Liquidator.Amounts.{
  repay_full, static_ltv_prefilter_bps, static_accrued_ratio_bps, effective_grace, is_matured,
  expected_bonus, is_p2pool, maybe_ltv_breach, outstanding_estimate, full_required, repay_amount,
}
use y_delta_crankers.Handlers.Liquidator.Quiet.{
  fetch_swb_bundle-Keeps, bank_pair-Keeps, pick_repay_amount-Keeps,
}

-- The amount asks for all, or for less than is owed.
abbrev pub IsSized : Env → LoanView → ℕ → Type 0
IsSized env loan amount =
    (amount ≡ repay_full) ⊎ (amount < outstanding_estimate (is_p2pool env loan) loan)

-- The loan's term and grace are over at a reading of the clock.
abbrev pub IsOverdue : Env → HandlerContext → MarketView → LoanView → Type 0
IsOverdue env ctx market loan =
    (h : History) × (saturating_add_i64 loan.matures_at_unix
        (effective_grace market ctx.cfg.thresholds.maturity_extra_buffer)
      ≤ℤ seconds (env.system_time h))

-- The loan passes the pre-filter, and its bonus is worth it.
abbrev pub IsWorthwhile : Env → HandlerContext → MarketView → LoanView → Type 0
IsWorthwhile env ctx market loan =
    ((loan.loan_type ≡ env.loan_type_p2pool)
      ⊎ (static_ltv_prefilter_bps
          ≤ static_accrued_ratio_bps loan.outstanding_debt_atoms loan.principal_debt_atoms))
    × (ctx.cfg.thresholds.min_liquidation_profit_atoms ≤ expected_bonus market loan)

-- The instruction for a loan that is overdue, or for one whose collateral has fallen short.
abbrev pub IsReasoned :
    Env → HandlerContext → MarketView → LoanView → RepayArgs → Instruction → Type 0
IsReasoned env ctx market loan args ix =
    (ix ≡ settle_matured_loan args) × IsOverdue env ctx market loan
    ⊎ (ix ≡ liquidate_loan args) × IsWorthwhile env ctx market loan

-- The message repays an active loan that the node listed, with the fee payer's funds, behind a
-- bundle of oracle updates.
pub record IsRepayment (env : Env) (ctx : HandlerContext) (m : Message) : Type 0 where
  pub market : MarketView
  pub loan : LoanView
  pub debt_bank : BankInfo
  pub collateral_bank : BankInfo
  pub amount : ℕ
  pub bundle : Bundle
  pub ix : Instruction
  pub listed : IsListedMarket env market
  pub unpaused : market.is_paused ≡ false
  pub held : IsListedLoan env ctx.rpc market.address loan
  pub bundled : IsBundle env ctx.swb_cranker (primary_oracle collateral_bank ∷ []) bundle
  pub active : loan.state ≡ env.loan_state_active
  pub owing : 0 < loan.outstanding_debt_atoms
  pub sized : IsSized env loan amount
  pub reasoned :
      IsReasoned env ctx market loan
        (Liquidator.repay_args env ctx market loan debt_bank collateral_bank amount)
        ix
  pub carried :
      m.ixs ≡ Rpc.priority_fee_preamble ctx.rpc Rpc.v0_compute_unit_limit ++ (bundle.0 ++ ix ∷ [])
  pub tabled : m.luts ≡ bundle.1
  pub paid : m.payer ≡ env.pubkey_of ctx.signers.fee_payer

-- The policy of the liquidator.
abbrev pub Repayments : Env → HandlerContext → Policy
Repayments env ctx h m = IsRepayment env ctx m

-- The amount, if there is one.
abbrev pub OfSize : Env → LoanView → Option ℕ → Type 0
OfSize env loan none = Unit
OfSize env loan (some amount) = IsSized env loan amount

amount_lt :
    (p2pool : Bool) (estimate balance n : ℕ)
    → repay_amount p2pool estimate balance ≡ some n
    → (n ≡ repay_full) ⊎ (n < estimate)
unfolding repay_amount full_required p2pool_full_repay_staged_atoms min_partial_repay_atoms
amount_lt true estimate balance n e = ground arith
amount_lt false estimate balance n e = ground arith

pub amount_of-OfSize :
    (env : Env) (loan : LoanView) (balance : ℕ) (o : Option ℕ)
    → repay_amount (is_p2pool env loan) (outstanding_estimate (is_p2pool env loan) loan) balance ≡ o
    → OfSize env loan o
amount_of-OfSize env loan balance none e = tt
amount_of-OfSize env loan balance (some n) e =
    amount_lt (is_p2pool env loan) (outstanding_estimate (is_p2pool env loan) loan) balance n e

pub is_breach :
    (env : Env) (loan : LoanView)
    → maybe_ltv_breach env loan ≡ true
    → (loan.loan_type ≡ env.loan_type_p2pool)
      ⊎ (static_ltv_prefilter_bps
          ≤ static_accrued_ratio_bps loan.outstanding_debt_atoms loan.principal_debt_atoms)
unfolding maybe_ltv_breach is_p2pool
is_breach env loan e = ground (arith, e)

pub is_profitable :
    (ok : Bool) (bonus least : ℕ) → not ok || ltb bonus least ≡ false → least ≤ bonus
is_profitable true bonus least e = ground (arith, e)
is_profitable false bonus least e = cc e

le_of_test : (a b : ℤ) → leb_ℤ a b ≡ true → a ≤ℤ b
le_of_test a b e = leb→le (pos_part a + neg_part b) (pos_part b + neg_part a) e

pub is_overdue :
    (env : Env) (ctx : HandlerContext) (market : MarketView) (loan : LoanView) (t_now : ℤ)
    → (h : History) × (seconds (env.system_time h) ≡ t_now)
    → is_matured t_now loan (effective_grace market ctx.cfg.thresholds.maturity_extra_buffer) ≡ true
    → IsOverdue env ctx market loan
unfolding is_matured
is_overdue env ctx market loan t_now read e =
    (read.0, subst (λ t. deadline ≤ℤ t) (sym read.1) (le_of_test deadline t_now e))
  where
    deadline : ℤ
    deadline =
        saturating_add_i64 loan.matures_at_unix
          (effective_grace market ctx.cfg.thresholds.maturity_extra_buffer)
