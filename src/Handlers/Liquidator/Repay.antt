-- ===== src/Handlers/Liquidator/Repay.antt =====
-- The size of a repayment, against the balance that pays for it and the program's partial floor.
use y_delta_crankers.Base.{
  ℕ, ◌-◌, ◌≤◌, ◌<◌, ◌≡◌, ◌⊎◌, Bool, true, false, Option, none, some, arith, u64_max,
}
use y_delta_crankers.Handlers.Util.{p2pool_full_repay_staged_atoms, min_partial_repay_atoms}
use y_delta_crankers.Handlers.Liquidator.Amounts.{repay_full, full_required, repay_amount}

-- A partial repayment is funded and leaves something to repay; it also clears the floor of the
-- program, unless the estimate is that floor or less.
abbrev pub IsSound : Bool → ℕ → ℕ → Option ℕ → Type 0
IsSound p2pool estimate balance none =
    (balance < full_required p2pool estimate) × (balance < min_partial_repay_atoms estimate)
IsSound p2pool estimate balance (some amount) =
    (amount ≡ repay_full) × (full_required p2pool estimate ≤ balance)
    ⊎ (0 < amount)
      × (amount ≤ balance)
      × (amount < estimate)
      × (balance < full_required p2pool estimate)
      × ((estimate ≤ 1_000) ⊎ (min_partial_repay_atoms estimate ≤ amount))

-- For every estimate and every balance of 64 bits: the full-repayment sentinel is chosen exactly if
-- the balance funds the full (for P2Pool, over-staged) amount; nothing is chosen only if the
-- balance is below both that amount and the partial floor; a partial amount is positive, so it is
-- never taken for the sentinel, the balance funds it, it is less than the estimate, and it reaches
-- the partial floor whenever the estimate is more than 1000 atoms.
pub repay_amount-IsSound :
    (p2pool : Bool) (estimate balance : ℕ)
    → balance ≤ u64_max
    → IsSound p2pool estimate balance (repay_amount p2pool estimate balance)
unfolding repay_amount full_required p2pool_full_repay_staged_atoms min_partial_repay_atoms
repay_amount-IsSound true estimate balance h = ground arith
repay_amount-IsSound false estimate balance h = ground arith

-- A P2Pool loan of at most 1000 atoms, with a balance of 1000 atoms or more that does not fund the
-- over-staged amount, is given a partial repayment below the floor of 1000 atoms.
pub repay_amount-lt-floor :
    (estimate balance : ℕ)
    → estimate ≤ 1_000
    → 1_000 ≤ balance
    → balance < p2pool_full_repay_staged_atoms estimate
    → (repay_amount true estimate balance ≡ some (estimate - 1))
      × (estimate - 1 < min_partial_repay_atoms estimate)
unfolding repay_amount full_required p2pool_full_repay_staged_atoms min_partial_repay_atoms
repay_amount-lt-floor estimate balance small rich short = ground arith
