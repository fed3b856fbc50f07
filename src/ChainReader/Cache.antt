-- ===== src/ChainReader/Cache.antt =====
-- The market cache of src/chain_reader.rs: an empty fetch never wipes a snapshot.
use y_delta_crankers.Base.{Bool, true, false, List, [], ◌∷◌, Option, some, none, if◌then◌else◌}
use y_delta_crankers.System.Types.{MarketView}
use y_delta_crankers.System.Env.{Env}
use y_delta_crankers.System.Action.{State, MarketCache, pure, gets, modify, call, ◌>>=◌}
use y_delta_crankers.System.Rules.{
  After, Triple, Keeps, bind-Triple, bind-Keeps, then-Triple, then-Keeps, pure-Keeps, call-Keeps,
  of_reply-Keeps,
}
use y_delta_crankers.Rpc
use y_delta_crankers.ChainReader

abbrev pub NonEmpty : {A : Type 0} → List A → Type 0
NonEmpty [] = ⊥
NonEmpty (x ∷ xs) = Unit

abbrev HoldsSnapshot : Option MarketCache → Type 0
HoldsSnapshot none = ⊥
HoldsSnapshot (some cache) = NonEmpty cache.markets

-- The cache holds a snapshot of at least one market.
abbrev pub HasSnapshot : State → Type 0
HasSnapshot s = HoldsSnapshot s.markets_cache

-- A list of markets is served, and a snapshot is held.
abbrev pub Serves : List MarketView → State → Type 0
Serves ms s = NonEmpty ms × HasSnapshot s

abbrev ServesIf : Option (List MarketView) → State → Type 0
ServesIf none s = HasSnapshot s
ServesIf (some ms) s = Serves ms s

module _ (env : Env) (rpc : Rpc.Rpc) where
  fetch_markets-Keeps : Keeps HasSnapshot HasSnapshot (ChainReader.fetch_markets env rpc)
  unfolding ChainReader.fetch_markets ChainReader.get_program_accounts
  fetch_markets-Keeps =
      bind-Keeps (bind-Keeps (call-Keeps _ _ (λ s h. h)) of_reply-Keeps) λ accounts. pure-Keeps _

  put-Serves :
      (m : MarketView) (ms : List MarketView)
      → Triple HasSnapshot HasSnapshot HasSnapshot
          (ChainReader.markets_cache_put env rpc (m ∷ ms))
          (λ _ s. HasSnapshot s)
  unfolding ChainReader.markets_cache_put modify
  put-Serves m ms = bind-Keeps (call-Keeps _ _ (λ s h. h)) λ now. record { run = λ s h. tt }

  or_fresh-Serves :
      (cached : Option MarketCache)
      → Triple HasSnapshot HasSnapshot
          (λ s. HoldsSnapshot cached × HasSnapshot s)
          (ChainReader.or_fresh env rpc [] (ChainReader.stale_snapshot env rpc cached))
          Serves
  unfolding pure
  or_fresh-Serves none = record { run = λ s h. absurd h.0 }
  or_fresh-Serves (some cache) = record { run = λ s h. h }

  settle_fetch-Serves :
      (fresh : List MarketView)
      → Triple HasSnapshot HasSnapshot HasSnapshot (ChainReader.settle_fetch env rpc fresh) Serves
  unfolding ChainReader.settle_fetch ChainReader.markets_cache_stale gets pure ◌>>=◌
  settle_fetch-Serves [] = record { run = λ s h. (or_fresh-Serves s.markets_cache).run s (h, h) }
  settle_fetch-Serves (m ∷ ms) =
      then-Triple (λ _ s. HasSnapshot s) (put-Serves m ms) (λ u. record { run = λ s h. (tt, h) })

  fresh_snapshot-Serves :
      (cached : Option MarketCache)
      → Triple HasSnapshot HasSnapshot
          (λ s. HoldsSnapshot cached × HasSnapshot s)
          (ChainReader.fresh_snapshot env rpc cached)
          ServesIf
  unfolding pure call ◌>>=◌
  fresh_snapshot-Serves none = record { run = λ s h. absurd h.0 }
  fresh_snapshot-Serves (some cache) = record { run = λ s h. young _ cache.markets _ h }
    where
      young :
          (b : Bool) (ms : List MarketView) (s : State)
          → Serves ms s
          → ServesIf (if b then some ms else none) s
      young true ms s h = h
      young false ms s h = h.1

  markets_cache_get-Serves :
      Triple HasSnapshot HasSnapshot HasSnapshot (ChainReader.markets_cache_get env rpc) ServesIf
  unfolding ChainReader.markets_cache_get gets ◌>>=◌
  markets_cache_get-Serves = record {
    run = λ s h. (fresh_snapshot-Serves s.markets_cache).run s (h, h);
  }

  or_fetch-Serves :
      (cached : Option (List MarketView))
      → Triple HasSnapshot HasSnapshot
          (ServesIf cached)
          (ChainReader.or_fetch env rpc cached)
          Serves
  unfolding pure
  or_fetch-Serves none = bind-Triple (λ _ s. HasSnapshot s) fetch_markets-Keeps settle_fetch-Serves
  or_fetch-Serves (some ms) = record { run = λ s h. h }

  -- If the cache holds a snapshot of at least one market, then whatever the node answers, a read of
  -- the market list either serves at least one market or is an error, and the cache still holds
  -- such a snapshot afterwards: an empty answer is neither served nor cached.
  pub list_markets-Serves :
      (s : State)
      → HasSnapshot s
      → After HasSnapshot HasSnapshot Serves (ChainReader.list_markets env rpc s)
  unfolding ChainReader.list_markets
  list_markets-Serves = (bind-Triple ServesIf markets_cache_get-Serves or_fetch-Serves).run

  keep_fetch-Keeps :
      (fresh : List MarketView)
      → Keeps HasSnapshot HasSnapshot (ChainReader.keep_fetch env rpc fresh)
  keep_fetch-Keeps [] = pure-Keeps _
  keep_fetch-Keeps (m ∷ ms) = then-Keeps (put-Serves m ms) (pure-Keeps _)

  -- If the cache holds a snapshot of at least one market, it still does after a refresh that
  -- bypasses it, whatever the node answers.
  pub refresh_markets-HasSnapshot :
      (s : State)
      → HasSnapshot s
      → After HasSnapshot HasSnapshot (λ _ t. HasSnapshot t) (ChainReader.refresh_markets env rpc s)
  unfolding ChainReader.refresh_markets
  refresh_markets-HasSnapshot = (bind-Keeps fetch_markets-Keeps keep_fetch-Keeps).run
