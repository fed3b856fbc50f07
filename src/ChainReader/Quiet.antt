-- ===== src/ChainReader/Quiet.antt =====
-- The chain reader sends nothing: its operations keep any invariant that only sends disturb.
use y_delta_crankers.Base.{ℕ, List, [], ◌∷◌, Option, none, some}
use y_delta_crankers.System.Types.{Pubkey, MarketView}
use y_delta_crankers.System.Env.{Env, Filter}
use y_delta_crankers.System.Action.{State, MarketCache}
use y_delta_crankers.System.Rules.{
  Keeps, bind-Keeps, then-Keeps, if-Keeps, pure-Keeps, fail-Keeps, gets-Keeps, or_fail-Keeps,
  of_reply-Keeps, call-Keeps, modify-Keeps, panic-Keeps, or_panic-Keeps, of_result-Keeps,
}
use y_delta_crankers.Rpc
use y_delta_crankers.System.Quiet.{Undisturbed}
use y_delta_crankers.Rpc.Reads.{get_account_data-Keeps}
use y_delta_crankers.ChainReader

module _ {I X : State → Type 0} (u : Undisturbed I X) (env : Env) (rpc : Rpc.Rpc) where
  get_program_accounts-Keeps :
      (filters : List Filter) → Keeps I X (ChainReader.get_program_accounts env rpc filters)
  unfolding ChainReader.get_program_accounts
  get_program_accounts-Keeps filters =
      bind-Keeps (call-Keeps _ _ (λ s i. u.quiet _ s tt i)) of_reply-Keeps

  fresh_snapshot-Keeps :
      (cached : Option MarketCache) → Keeps I X (ChainReader.fresh_snapshot env rpc cached)
  fresh_snapshot-Keeps none = pure-Keeps _
  fresh_snapshot-Keeps (some cache) =
      bind-Keeps (call-Keeps _ _ (λ s i. u.quiet _ s tt i)) (λ n. pure-Keeps _)

  markets_cache_put-Keeps :
      (markets : List MarketView) → Keeps I X (ChainReader.markets_cache_put env rpc markets)
  unfolding ChainReader.markets_cache_put
  markets_cache_put-Keeps markets =
      bind-Keeps (call-Keeps _ _ (λ s i. u.quiet _ s tt i)) (λ n. modify-Keeps _ (u.recached _))

  settle_fetch-Keeps :
      (fresh : List MarketView) → Keeps I X (ChainReader.settle_fetch env rpc fresh)
  unfolding ChainReader.settle_fetch ChainReader.markets_cache_stale
  settle_fetch-Keeps [] = bind-Keeps (gets-Keeps _) or_fresh-Keeps
    where
      or_fresh-Keeps :
          (stale : Option (List MarketView)) → Keeps I X (ChainReader.or_fresh env rpc [] stale)
      or_fresh-Keeps none = pure-Keeps _
      or_fresh-Keeps (some markets) = pure-Keeps _
  settle_fetch-Keeps (m ∷ ms) = then-Keeps (markets_cache_put-Keeps (m ∷ ms)) (pure-Keeps _)

  or_fetch-Keeps :
      (cached : Option (List MarketView)) → Keeps I X (ChainReader.or_fetch env rpc cached)
  unfolding ChainReader.fetch_markets
  or_fetch-Keeps none =
      bind-Keeps (bind-Keeps (get_program_accounts-Keeps _) (λ a. pure-Keeps _)) settle_fetch-Keeps
  or_fetch-Keeps (some cached) = pure-Keeps _

  pub list_markets-Keeps : Keeps I X (ChainReader.list_markets env rpc)
  unfolding ChainReader.list_markets ChainReader.markets_cache_get
  list_markets-Keeps = bind-Keeps (bind-Keeps (gets-Keeps _) fresh_snapshot-Keeps) or_fetch-Keeps

  keep_fetch-Keeps : (fresh : List MarketView) → Keeps I X (ChainReader.keep_fetch env rpc fresh)
  keep_fetch-Keeps [] = pure-Keeps _
  keep_fetch-Keeps (m ∷ ms) = then-Keeps (markets_cache_put-Keeps (m ∷ ms)) (pure-Keeps _)

  pub refresh_markets-Keeps : Keeps I X (ChainReader.refresh_markets env rpc)
  unfolding ChainReader.refresh_markets ChainReader.fetch_markets
  refresh_markets-Keeps =
      bind-Keeps (bind-Keeps (get_program_accounts-Keeps _) (λ a. pure-Keeps _)) keep_fetch-Keeps

  pub list_loans_for_market-Keeps :
      (market : Pubkey) → Keeps I X (ChainReader.list_loans_for_market env rpc market)
  unfolding ChainReader.list_loans_for_market
  list_loans_for_market-Keeps market = bind-Keeps (get_program_accounts-Keeps _) (λ a. pure-Keeps _)

  pub market_data-Keeps : (market : Pubkey) → Keeps I X (ChainReader.market_data env rpc market)
  unfolding ChainReader.market_data
  market_data-Keeps market =
      bind-Keeps (get_account_data-Keeps u env rpc market) (λ b. or_fail-Keeps _ _)

  pub read_pending_matched_loans-Keeps :
      (market : Pubkey) → Keeps I X (ChainReader.read_pending_matched_loans env rpc market)
  unfolding ChainReader.read_pending_matched_loans
  read_pending_matched_loans-Keeps market =
      bind-Keeps (market_data-Keeps market)
        λ b. bind-Keeps (of_result-Keeps u.crash _) λ parts. pure-Keeps _

  pub read_seat_at-Keeps :
      (bytes : List ℕ) (index : ℕ) → Keeps I X (ChainReader.read_seat_at env rpc bytes index)
  unfolding ChainReader.read_seat_at
  read_seat_at-Keeps bytes index = then-Keeps (if-Keeps _ (fail-Keeps _) (pure-Keeps _)) (
      then-Keeps (if-Keeps _ (panic-Keeps u.crash) (pure-Keeps _))
        (bind-Keeps (or_panic-Keeps u.crash _) λ seat. pure-Keeps _))

  pub list_sub_vaults-Keeps : Keeps I X (ChainReader.list_sub_vaults env rpc)
  unfolding ChainReader.list_sub_vaults
  list_sub_vaults-Keeps = bind-Keeps (get_program_accounts-Keeps _) (λ a. pure-Keeps _)

  pub list_pending_vault_claims-Keeps :
      (markets : List MarketView)
      → Keeps I X (ChainReader.list_pending_vault_claims env rpc markets)
  unfolding ChainReader.list_pending_vault_claims
  list_pending_vault_claims-Keeps [] = pure-Keeps _
  list_pending_vault_claims-Keeps (m ∷ ms) =
      if-Keeps m.is_paused (list_pending_vault_claims-Keeps ms) (
        bind-Keeps (get_account_data-Keeps u env rpc m.address)
          λ bytes. bind-Keeps (list_pending_vault_claims-Keeps ms) λ rows. pure-Keeps _)

  pub market_is_rate_crossed-Keeps :
      (market : Pubkey) → Keeps I X (ChainReader.market_is_rate_crossed env rpc market)
  unfolding ChainReader.market_is_rate_crossed ChainReader.best_rates_cross
  market_is_rate_crossed-Keeps market = bind-Keeps (market_data-Keeps market) λ b.
      bind-Keeps (of_result-Keeps u.crash _) λ parts. if-Keeps _ (pure-Keeps _) (
        bind-Keeps (or_panic-Keeps u.crash _)
          λ bid. bind-Keeps (or_panic-Keeps u.crash _) λ ask. pure-Keeps _)
