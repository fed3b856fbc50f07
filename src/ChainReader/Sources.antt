-- ===== src/ChainReader/Sources.antt =====
-- Where the markets, the loans and the sub-vaults that src/chain_reader.rs returns come from.
use y_delta_crankers.Base.{
  ◌≡◌, refl, Bool, true, false, List, [], ◌∷◌, Option, none, some, if◌then◌else◌, All, Memᴰ,
  All-of_mem,
}
use y_delta_crankers.System.Types.{Pubkey, Account, MarketView, LoanView, SubVaultView}
use y_delta_crankers.System.Env.{Env, History, Event, Filter, Reply, memcmp, reply, refused}
use y_delta_crankers.System.Action.{
  State, MarketCache, pure, fail, gets, of_reply, record_event, ◌>>=◌,
}
use y_delta_crankers.System.Rules.{
  Triple, Keeps, bind-Triple, bind-Keeps, then-Triple, known-Triple, call-Keeps, call-Triple,
  modify-Keeps, lax-Triple,
}
use y_delta_crankers.System.Quiet.{IsQuiet, Undisturbed}
use y_delta_crankers.Rpc
use y_delta_crankers.ChainReader
use y_delta_crankers.ChainReader.Decode.{
  decode_markets, decode_loans, sub_vault_rows, sort_by_address, le_bytes,
}

-- The market was decoded from an answer of the node to the query for markets.
abbrev pub IsListedMarket : Env → MarketView → Type 0
IsListedMarket env market =
    (h : History) × (accounts : List (Pubkey × Account)) × (env.get_program_accounts h
        (memcmp 0 (le_bytes 8 env.market_fixed_discriminant) ∷ [])
      ≡ reply accounts)
    × Memᴰ market (sort_by_address (decode_markets env accounts))

-- The loan was decoded from an answer of the node to the query for the loans of this market.
abbrev pub IsListedLoan : Env → Rpc.Rpc → Pubkey → LoanView → Type 0
IsListedLoan env rpc market loan =
    (h : History) × (accounts : List (Pubkey × Account)) × (env.get_program_accounts h
        (ChainReader.loan_filters env rpc (memcmp 8 (env.key_bytes market)) [])
      ≡ reply accounts)
    × Memᴰ loan (decode_loans env accounts)

-- The sub-vault was decoded from an answer of the node to the query for vaults.
abbrev pub IsListedSubVault : Env → SubVaultView → Type 0
IsListedSubVault env sub_vault =
    (h : History) × (accounts : List (Pubkey × Account)) × (env.get_program_accounts h
        (memcmp 0 (le_bytes 8 env.global_vault_fixed_discriminant) ∷ [])
      ≡ reply accounts)
    × Memᴰ sub_vault (sub_vault_rows env accounts)

abbrev pub IsListed : Env → Option MarketCache → Type 0
IsListed env none = Unit
IsListed env (some cache) = All (IsListedMarket env) cache.markets

abbrev AreServed : Env → Option (List MarketView) → Type 0
AreServed env none = Unit
AreServed env (some ms) = All (IsListedMarket env) ms

module _ {I X : State → Type 0}
    (quiet : (e : Event) (s : State) → IsQuiet e → I s → I (record_event e s)) where
  of_reply-Triple :
      {A : Type 0} (K : Reply A → Type 0) (r : Reply A)
      → Triple I X (λ s. I s × K r) (of_reply r) (λ a s. I s × K (reply a))
  unfolding of_reply pure fail
  of_reply-Triple K (reply a) = record { run = λ s k. k }
  of_reply-Triple K (refused e) = record { run = λ s k. k.0 }

  get_program_accounts-Triple :
      (env : Env) (rpc : Rpc.Rpc) (filters : List Filter)
      → Triple I X I (ChainReader.get_program_accounts env rpc filters) (λ accounts s.
        I s × ((h : History) × (env.get_program_accounts h filters ≡ reply accounts)))
  unfolding ChainReader.get_program_accounts
  get_program_accounts-Triple env rpc filters =
      bind-Triple (λ r s. I s × ((h : History) × (env.get_program_accounts h filters ≡ r)))
        (call-Triple _ _ (λ s i. (quiet _ s tt i, (s.history, refl))))
        λ r. of_reply-Triple (λ a. (h : History) × (env.get_program_accounts h filters ≡ a)) r

  pub list_sub_vaults-Triple :
      (env : Env) (rpc : Rpc.Rpc)
      → Triple I X I
          (ChainReader.list_sub_vaults env rpc)
          (λ sub_vaults s. I s × All (IsListedSubVault env) sub_vaults)
  unfolding ChainReader.list_sub_vaults pure
  list_sub_vaults-Triple env rpc = bind-Triple _ (get_program_accounts-Triple env rpc _) λ accounts.
      known-Triple λ read. record {
        run = λ s i.
            (i, All-of_mem _ (sub_vault_rows env accounts) (λ v m. (read.0, accounts, read.1, m)));
      }

module _ {I X : State → Type 0} (u : Undisturbed I X) (env : Env) (rpc : Rpc.Rpc) where
  pub list_loans_for_market-Triple :
      (market : Pubkey)
      → Triple I X I
          (ChainReader.list_loans_for_market env rpc market)
          (λ loans s. I s × All (IsListedLoan env rpc market) loans)
  unfolding ChainReader.list_loans_for_market pure
  list_loans_for_market-Triple market =
      bind-Triple _ (get_program_accounts-Triple u.quiet env rpc _) λ accounts. known-Triple λ read.
        record {
          run = λ s i. (
            i,
            All-of_mem _ (decode_loans env accounts) (λ loan m. (read.0, accounts, read.1, m)),
          );
        }

  -- The invariant, and a cache of markets that the node has listed.
  abbrev Listed : State → Type 0
  Listed s = I s × IsListed env s.markets_cache

  quiet-Listed : (e : Event) (s : State) → IsQuiet e → Listed s → Listed (record_event e s)
  quiet-Listed e s q l = (u.quiet e s q l.0, l.1)

  fetch_markets-Triple :
      Triple Listed X Listed
        (ChainReader.fetch_markets env rpc)
        (λ ms s. Listed s × All (IsListedMarket env) ms)
  unfolding ChainReader.fetch_markets pure
  fetch_markets-Triple =
      bind-Triple _ (get_program_accounts-Triple quiet-Listed env rpc _) λ accounts.
        known-Triple λ read. record {
          run = λ s i. (
            i,
            All-of_mem _ (sort_by_address (decode_markets env accounts))
                (λ market m. (read.0, accounts, read.1, m)),
          );
        }

  markets_cache_put-Keeps :
      (ms : List MarketView)
      → All (IsListedMarket env) ms
      → Keeps Listed X (ChainReader.markets_cache_put env rpc ms)
  unfolding ChainReader.markets_cache_put
  markets_cache_put-Keeps ms p =
      bind-Keeps (call-Keeps _ _ (λ s l. quiet-Listed _ s tt l))
        λ now. modify-Keeps _ (λ s l. (u.recached _ s l.0, p))

  or_fresh-Triple :
      (cached : Option MarketCache)
      → IsListed env cached
      → Triple Listed X Listed
          (ChainReader.or_fresh env rpc [] (ChainReader.stale_snapshot env rpc cached))
          (λ ms s. Listed s × All (IsListedMarket env) ms)
  unfolding pure
  or_fresh-Triple none p = record { run = λ s l. (l, tt) }
  or_fresh-Triple (some cache) p = record { run = λ s l. (l, p) }

  settle_fetch-Triple :
      (fresh : List MarketView)
      → All (IsListedMarket env) fresh
      → Triple Listed X Listed
          (ChainReader.settle_fetch env rpc fresh)
          (λ ms s. Listed s × All (IsListedMarket env) ms)
  unfolding ChainReader.settle_fetch ChainReader.markets_cache_stale gets pure ◌>>=◌
  settle_fetch-Triple [] p = record { run = λ s l. (or_fresh-Triple s.markets_cache l.1).run s l }
  settle_fetch-Triple (m ∷ ms) p =
      then-Triple (λ _. Listed) (markets_cache_put-Keeps (m ∷ ms) p)
        (λ _. record { run = λ s l. (l, p) })

  if_young :
      (b : Bool) (ms : List MarketView)
      → All (IsListedMarket env) ms
      → AreServed env (if b then some ms else none)
  if_young true ms p = p
  if_young false ms p = tt

  fresh_snapshot-Triple :
      (cached : Option MarketCache)
      → IsListed env cached
      → Triple Listed X Listed
          (ChainReader.fresh_snapshot env rpc cached)
          (λ o s. Listed s × AreServed env o)
  unfolding pure
  fresh_snapshot-Triple none p = record { run = λ s l. (l, tt) }
  fresh_snapshot-Triple (some cache) p =
      bind-Triple (λ _. Listed) (call-Keeps _ _ (λ s l. quiet-Listed _ s tt l))
        λ now. record { run = λ s l. (l, if_young _ cache.markets p) }

  markets_cache_get-Triple :
      Triple Listed X Listed
        (ChainReader.markets_cache_get env rpc)
        (λ o s. Listed s × AreServed env o)
  unfolding ChainReader.markets_cache_get gets ◌>>=◌
  markets_cache_get-Triple = record {
    run = λ s l. (fresh_snapshot-Triple s.markets_cache l.1).run s l;
  }

  or_fetch-Triple :
      (cached : Option (List MarketView))
      → AreServed env cached
      → Triple Listed X Listed
          (ChainReader.or_fetch env rpc cached)
          (λ ms s. Listed s × All (IsListedMarket env) ms)
  unfolding pure
  or_fetch-Triple none p =
      bind-Triple _ fetch_markets-Triple λ fresh. known-Triple λ q. settle_fetch-Triple fresh q
  or_fetch-Triple (some ms) p = record { run = λ s l. (l, p) }

  pub list_markets-Triple :
      Triple I X
        (λ s. I s × IsListed env s.markets_cache)
        (ChainReader.list_markets env rpc)
        (λ ms s. I s × All (IsListedMarket env) ms)
  unfolding ChainReader.list_markets
  list_markets-Triple =
      lax-Triple (λ s l. l.0) (λ a s q. (q.0.0, q.1))
        (bind-Triple _ markets_cache_get-Triple
          λ cached. known-Triple λ p. or_fetch-Triple cached p)
