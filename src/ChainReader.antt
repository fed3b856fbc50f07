-- ===== src/ChainReader.antt =====
-- src/chain_reader.rs: the market cache, and the reads of markets, loans, queues, seats, vaults and
-- orders. The layouts of the accounts and the tree walks are those of the program crate (`Env`).
pub mod Decode
pub mod Cache
pub mod Quiet
pub mod Sources
pub mod Held
pub mod Seats
use y_delta_crankers.Base.{
  ℕ, ◌-◌, ltb, leb, ◌==◌, Bool, true, false, not, ◌&&◌, ◌||◌, List, [], ◌∷◌, ◌++◌, Option, none,
  some, map, drop, take, length, is_empty, if◌then◌else◌,
}
use y_delta_crankers.System.Types.{
  Pubkey, Account, MarketView, LoanView, PendingMatchedLoan, SeatView, SubVaultView,
  PendingVaultClaim, OrderView, market_not_found, seat_index_nil,
}
use y_delta_crankers.System.Env.{
  Env, Filter, data_size, memcmp, MarketFixed, LoanFixed, MatchedLoan, ClaimedSeat, RestingOrder,
  GlobalVaultFixed, SubVault, asked_program_accounts, asked_instant, asked_slot,
}
use y_delta_crankers.System.Action.{
  State, Action, Result, ok, err, MarketCache, pure, fail, panic, gets, or_fail, or_panic, of_reply,
  of_result, modify, call, for_sum, ◌>>=◌, ◌>>◌,
}
use y_delta_crankers.Rpc
use Decode.{
  decode_market_fixed, split_market, market_view_from_fixed, decode_markets, sort_by_address,
  decode_loans, sub_vault_rows, vault_claim_rows, le_bytes,
}

abbrev pub market_cache_ttl_ms : ℕ
market_cache_ttl_ms = 30_000

module _ (env : Env) (rpc : Rpc.Rpc) where
  unfoldable pub get_program_accounts : List Filter → Action (List (Pubkey × Account))
  get_program_accounts filters = do
    r ← call (asked_program_accounts filters) (λ h. env.get_program_accounts h filters)
    of_reply r

  unfoldable pub health : Action (Unit {0})
  health = do r ← call asked_slot env.get_slot; slot ← of_reply r; pure tt

  unfoldable pub fetch_markets : Action (List MarketView)
  fetch_markets = do
    accounts ← get_program_accounts (memcmp 0 (le_bytes 8 env.market_fixed_discriminant) ∷ [])
    pure (sort_by_address (decode_markets env accounts))

  -- The snapshot, if one is there and is younger than the TTL.
  abbrev pub fresh_snapshot : Option MarketCache → Action (Option (List MarketView))
  fresh_snapshot none = pure none
  fresh_snapshot (some cache) = do
    now ← call asked_instant env.instant
    pure (if ltb (now - cache.fetched_at) market_cache_ttl_ms then some cache.markets else none)

  unfoldable pub markets_cache_get : Action (Option (List MarketView))
  markets_cache_get = do cached ← gets (λ s. s.markets_cache); fresh_snapshot cached

  abbrev stale_snapshot : Option MarketCache → Option (List MarketView)
  stale_snapshot none = none
  stale_snapshot (some cache) = some cache.markets

  unfoldable pub markets_cache_stale : Action (Option (List MarketView))
  markets_cache_stale = gets (λ s. stale_snapshot s.markets_cache)

  unfoldable pub markets_cache_put : List MarketView → Action (Unit {0})
  markets_cache_put markets = do
    now ← call asked_instant env.instant
    modify (λ s. record s { markets_cache = some (record { fetched_at = now; markets = markets }) })

  abbrev pub or_fresh : List MarketView → Option (List MarketView) → Action (List MarketView)
  or_fresh fresh none = pure fresh
  or_fresh fresh (some stale) = pure stale

  -- An empty fetch does not replace the snapshot: the stale one is served.
  unfoldable pub settle_fetch : List MarketView → Action (List MarketView)
  settle_fetch [] = do stale ← markets_cache_stale; or_fresh [] stale
  settle_fetch (m ∷ ms) = do markets_cache_put (m ∷ ms); pure (m ∷ ms)

  abbrev pub or_fetch : Option (List MarketView) → Action (List MarketView)
  or_fetch none = do fresh ← fetch_markets; settle_fetch fresh
  or_fetch (some cached) = pure cached

  unfoldable pub list_markets : Action (List MarketView)
  list_markets = do cached ← markets_cache_get; or_fetch cached

  abbrev pub keep_fetch : List MarketView → Action (List MarketView)
  keep_fetch [] = pure []
  keep_fetch (m ∷ ms) = do markets_cache_put (m ∷ ms); pure (m ∷ ms)

  unfoldable pub refresh_markets : Action (List MarketView)
  refresh_markets = do fresh ← fetch_markets; keep_fetch fresh

  -- The data of a market account that has to exist.
  unfoldable pub market_data : Pubkey → Action (List ℕ)
  market_data market = do
    bytes ← Rpc.get_account_data env rpc market
    or_fail bytes (market_not_found market)

  unfoldable pub read_market : Pubkey → Action MarketView
  read_market market = do
    bytes ← market_data market
    fixed ← of_result (decode_market_fixed env bytes)
    pure (market_view_from_fixed market fixed)

  abbrev loan_filters : Filter → List Filter → List Filter
  loan_filters first rest =
      data_size env.loan_fixed_size
      ∷ memcmp 0 (le_bytes 8 env.loan_fixed_discriminant)
      ∷ first
      ∷ rest

  unfoldable pub list_loans_for_market : Pubkey → Action (List LoanView)
  list_loans_for_market market = do
    accounts ← get_program_accounts (loan_filters (memcmp 8 (env.key_bytes market)) [])
    pure (decode_loans env accounts)

  unfoldable pub list_repaid_vault_loans : Action (List LoanView)
  list_repaid_vault_loans = do
    accounts ← get_program_accounts (
        loan_filters (memcmp 196 (env.loan_state_repaid ∷ []))
          (memcmp 201 (env.owner_kind_sub_vault ∷ []) ∷ []))
    pure (decode_loans env accounts)

  abbrev pending_of : Pubkey → MatchedLoan → PendingMatchedLoan
  pending_of market node = record {
    market = market;
    sequence = node.sequence;
    flags = node.flags;
    loan_type = node.loan_type;
    lender_seat_index = node.lender_seat_index;
    borrower_seat_index = node.borrower_seat_index;
    principal_atoms = node.principal_atoms;
    origination_atoms = node.origination_atoms;
  }

  unfoldable pub read_pending_matched_loans : Pubkey → Action (List PendingMatchedLoan)
  read_pending_matched_loans market = do
    bytes ← market_data market
    parts ← of_result (split_market env bytes)
    let root : ℕ = parts.0.matched_loans_root_index
    pure (
        if root == env.nil_index
        then []
        else map (pending_of market) (env.matched_loans parts.1 root))

  -- A buffer shorter than the fixed part panics, as does an index outside of it.
  unfoldable pub read_seat_at : List ℕ → ℕ → Action SeatView
  read_seat_at bytes index = do
    if index == env.nil_index then fail seat_index_nil else pure tt
    if ltb (length bytes) env.market_fixed_size then panic else pure tt
    seat ← or_panic (env.helper_seat (drop env.market_fixed_size bytes) index)
    pure (record {
      owner = seat.owner;
      owner_kind = seat.owner_kind;
      sub_vault_id = seat.sub_vault_id;
    })

  unfoldable pub list_sub_vaults : Action (List SubVaultView)
  list_sub_vaults = do
    accounts ← get_program_accounts (memcmp 0 (le_bytes 8 env.global_vault_fixed_discriminant) ∷ [])
    pure (sub_vault_rows env accounts)

  -- The rows of one market's account, if it can be read.
  abbrev claim_rows_of : MarketView → Option (List ℕ) → List PendingVaultClaim
  claim_rows_of market none = []
  claim_rows_of market (some bytes) = vault_claim_rows env market (split_market env bytes)

  unfoldable pub list_pending_vault_claims : List MarketView → Action (List PendingVaultClaim)
  list_pending_vault_claims [] = pure []
  list_pending_vault_claims (market ∷ markets) =
      let rest = list_pending_vault_claims markets in
      if market.is_paused
      then rest
      else (Rpc.get_account_data env rpc market.address >>= λ bytes.
          rest >>= λ rows. pure (claim_rows_of market bytes ++ rows))

  unfoldable pub join_order_with_seat : List ℕ → RestingOrder → Action (List OrderView)
  join_order_with_seat dynamic order =
      if order.trader_seat_index == env.nil_index
      then pure []
      else (or_panic (env.helper_seat dynamic order.trader_seat_index) >>= λ seat. pure (
          record {
            sequence = order.sequence_number;
            side = order.side;
            rate_bps = order.rate_bps;
            term_seconds = order.term_seconds;
            principal_atoms = order.principal_atoms;
            owner = seat.owner;
            owner_kind = seat.owner_kind;
            sub_vault_id = seat.sub_vault_id;
          }
          ∷ []))

  unfoldable pub join_orders : List ℕ → List RestingOrder → Action (List OrderView)
  join_orders dynamic [] = pure []
  join_orders dynamic (order ∷ orders) = do
    row ← join_order_with_seat dynamic order
    rows ← join_orders dynamic orders
    pure (row ++ rows)

  -- Only the asks are walked.
  unfoldable pub list_market_orders : Pubkey → Action (List OrderView)
  list_market_orders market = do
    bytes ← market_data market
    parts ← of_result (split_market env bytes)
    let fixed : MarketFixed = parts.0
    join_orders parts.1 (
        if fixed.asks_root_index == env.nil_index
        then []
        else env.book_orders parts.1 fixed.asks_root_index fixed.asks_best_index)

  -- The two nodes that the best indices point at.
  unfoldable pub best_rates_cross : MarketFixed → List ℕ → Action Bool
  best_rates_cross fixed dynamic = do
    best_bid ← or_panic (env.helper_order dynamic fixed.bids_best_index)
    best_ask ← or_panic (env.helper_order dynamic fixed.asks_best_index)
    pure (leb best_ask.rate_bps best_bid.rate_bps)

  -- The best resting bid rate is at least the best resting ask rate.
  unfoldable pub market_is_rate_crossed : Pubkey → Action Bool
  market_is_rate_crossed market = do
    bytes ← market_data market
    parts ← of_result (split_market env bytes)
    let fixed : MarketFixed = parts.0
    if fixed.bids_best_index == env.nil_index || fixed.asks_best_index == env.nil_index
        then pure false
        else best_rates_cross fixed parts.1
