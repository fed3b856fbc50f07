-- ===== src/ChainReader/Decode.antt =====
-- src/chain_reader.rs: from account bytes to views. A malformed account is an error, and the list
-- readers skip it.
use y_delta_crankers.Base.{
  ℕ, zero, suc, ◌/◌, ◌%◌, ltb, leb, ◌==◌, Bool, not, List, [], ◌∷◌, ◌++◌, Option, none, some, take,
  drop, length, map, if◌then◌else◌,
}
use y_delta_crankers.System.Types.{
  Pubkey, Account, MarketView, LoanView, SubVaultView, PendingVaultClaim, market_too_small,
  market_discriminator, loan_too_small, loan_discriminator,
}
use y_delta_crankers.System.Env.{
  Env, MarketFixed, LoanFixed, ClaimedSeat, GlobalVaultFixed, SubVault,
}
use y_delta_crankers.System.Action.{Result, ok, err, panicked}

-- `to_le_bytes` of a number of so many bytes
abbrev pub le_bytes : ℕ → ℕ → List ℕ
le_bytes zero n = []
le_bytes (suc k) n = (n % 256) ∷ le_bytes k (n / 256)

module _ (env : Env) where
  unfoldable pub decode_market_fixed : List ℕ → Result MarketFixed
  decode_market_fixed bytes =
      let fixed = env.market_fixed (take env.market_fixed_size bytes) in
      if ltb (length bytes) env.market_fixed_size
      then err market_too_small
      else if fixed.discriminator == env.market_fixed_discriminant
      then ok fixed
      else err market_discriminator

  unfoldable pub decode_loan_fixed : List ℕ → Result LoanFixed
  decode_loan_fixed bytes =
      let loan = env.loan_fixed (take env.loan_fixed_size bytes) in
      if ltb (length bytes) env.loan_fixed_size
      then err loan_too_small
      else if loan.discriminator == env.loan_fixed_discriminant
      then ok loan
      else err loan_discriminator

  abbrev with_dynamic : List ℕ → Result MarketFixed → Result (MarketFixed × List ℕ)
  with_dynamic bytes (ok fixed) = ok (fixed, drop env.market_fixed_size bytes)
  with_dynamic bytes (err e) = err e
  with_dynamic bytes panicked = panicked

  unfoldable pub split_market : List ℕ → Result (MarketFixed × List ℕ)
  split_market bytes = with_dynamic bytes (decode_market_fixed bytes)

-- A flag byte as the program reads it.
abbrev pub nonzero : ℕ → Bool
nonzero n = not (n == 0)

unfoldable pub market_view_from_fixed : Pubkey → MarketFixed → MarketView
market_view_from_fixed address fixed = record {
  address = address;
  debt_mint = fixed.debt_mint;
  collateral_mint = fixed.collateral_mint;
  debt_bank = fixed.debt_lending_pool;
  collateral_bank = fixed.collateral_lending_pool;
  is_paused = nonzero fixed.is_paused;
  admin = fixed.admin;
  grace_period_seconds = fixed.grace_period_seconds;
  liquidation_keeper_bps = fixed.liquidation_keeper_bps;
  liquidation_protocol_bps = fixed.liquidation_protocol_bps;
}

-- `sort_by_key` on the address bytes: a stable insertion.
unfoldable pub insert_market : MarketView → List MarketView → List MarketView
insert_market m [] = m ∷ []
insert_market m (n ∷ ns) = if leb m.address n.address then m ∷ n ∷ ns else n ∷ insert_market m ns

unfoldable pub sort_by_address : List MarketView → List MarketView
sort_by_address [] = []
sort_by_address (m ∷ ms) = insert_market m (sort_by_address ms)

module _ (env : Env) where
  abbrev pub market_row : Pubkey → Result MarketFixed → List MarketView
  market_row address (ok fixed) = market_view_from_fixed address fixed ∷ []
  market_row address _ = []

  unfoldable pub decode_markets : List (Pubkey × Account) → List MarketView
  decode_markets [] = []
  decode_markets ((address, acct) ∷ rest) =
      market_row address (decode_market_fixed env acct.bytes) ++ decode_markets rest

  abbrev pub loan_row : Pubkey → Result LoanFixed → List LoanView
  loan_row address (ok loan) =
      record {
        address = address;
        market = loan.market;
        state = loan.state;
        loan_type = loan.loan_type;
        principal_debt_atoms = loan.principal_debt_atoms;
        outstanding_debt_atoms = loan.outstanding_debt_atoms;
        matures_at_unix = loan.matures_at_unix;
        matched_loan_sequence = loan.matched_loan_sequence;
        lender_kind = loan.lender_kind;
        lender_global_vault = loan.lender_global_vault;
        lender_sub_vault_id = loan.lender_sub_vault_id;
        borrower_rate_bps = loan.borrower_rate_bps;
        lender_rate_bps = loan.lender_rate_bps;
      }
      ∷ []
  loan_row address _ = []

  unfoldable pub decode_loans : List (Pubkey × Account) → List LoanView
  decode_loans [] = []
  decode_loans ((address, acct) ∷ rest) =
      loan_row address (decode_loan_fixed env acct.bytes) ++ decode_loans rest

  abbrev sub_vault_view : Pubkey → GlobalVaultFixed → SubVault → SubVaultView
  sub_vault_view vault header sub_vault = record {
    vault = vault;
    vault_mint = header.mint;
    vault_bank = header.lending_pool;
    sub_vault_id = sub_vault.sub_vault_id;
    curator = sub_vault.curator;
    accumulated_curator_fee_atoms = sub_vault.accumulated_curator_fee_atoms;
    vault_is_paused = nonzero header.is_paused;
    pending_claim_atoms = sub_vault.pending_claim_atoms;
    is_sunset = nonzero sub_vault.is_sunset;
  }

  abbrev header_rows : Pubkey → List ℕ → Option GlobalVaultFixed → List SubVaultView
  header_rows vault dynamic none = []
  header_rows vault dynamic (some header) =
      if header.discriminator == env.global_vault_fixed_discriminant
      then (if header.sub_vaults_root_index == env.nil_index
          then []
          else map (sub_vault_view vault header)
              (env.sub_vaults dynamic header.sub_vaults_root_index))
      else []

  abbrev vault_rows : Pubkey → List ℕ → List SubVaultView
  vault_rows vault bytes =
      if ltb (length bytes) env.global_vault_fixed_size
      then []
      else header_rows vault (drop env.global_vault_fixed_size bytes)
          (env.global_vault_fixed (take env.global_vault_fixed_size bytes))

  unfoldable pub sub_vault_rows : List (Pubkey × Account) → List SubVaultView
  sub_vault_rows [] = []
  sub_vault_rows ((vault, acct) ∷ rest) = vault_rows vault acct.bytes ++ sub_vault_rows rest

  -- A seat makes a row if a sub-vault owns it and it holds shares.
  abbrev pub seat_row : MarketView → ClaimedSeat → List PendingVaultClaim
  seat_row market seat =
      if seat.owner_kind == env.owner_kind_sub_vault
      then (if seat.debt_withdrawable_shares == 0
          then []
          else record {
            market = market.address;
            debt_mint = market.debt_mint;
            debt_bank = market.debt_bank;
            lender_global_vault = seat.owner;
            sub_vault_id = seat.sub_vault_id;
            debt_withdrawable_shares = seat.debt_withdrawable_shares;
          }
            ∷ [])
      else []

  unfoldable pub seat_rows : MarketView → List ClaimedSeat → List PendingVaultClaim
  seat_rows market [] = []
  seat_rows market (seat ∷ seats) = seat_row market seat ++ seat_rows market seats

  abbrev pub vault_claim_rows : MarketView → Result (MarketFixed × List ℕ) → List PendingVaultClaim
  vault_claim_rows market (ok (fixed, dynamic)) =
      if fixed.claimed_seats_root_index == env.nil_index
      then []
      else seat_rows market (env.claimed_seats dynamic fixed.claimed_seats_root_index)
  vault_claim_rows market _ = []
