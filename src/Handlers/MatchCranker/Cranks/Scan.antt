-- ===== src/Handlers/MatchCranker/Cranks/Scan.antt =====
-- What the loop of the match-cranker (src/handlers/match_cranker.rs) over the markets sends.
use y_delta_crankers.Base.{◌≡◌, refl, not, Bool, true, false, List, ◌∷◌}
use y_delta_crankers.System.Types.{MarketView, Message}
use y_delta_crankers.System.Env.{Env, History}
use y_delta_crankers.System.Action.{Key, State, Result, ok, err, panicked, of_result}
use y_delta_crankers.System.Rules.{
  After, Triple, Keeps, known-Triple, bind-Triple, bind-Keeps, then-Keeps, then-Triple, if-Triple,
  pure-Keeps, of_result-Keeps, attempt-Keeps, panic-Keeps, for_sum-All,
}
use y_delta_crankers.System.Inflight.{
  Holding, with_fresh, claim_inflight-Triple, release_inflight-Triple, attempt-Triple,
}
use y_delta_crankers.Rpc.Gate.{passing}
use y_delta_crankers.Rpc.Allowed.{Policy, AreSent, Sent, Allowed, message_reads}
use y_delta_crankers.ChainReader.Sources.{IsListed, IsListedMarket, list_markets-Triple}
use y_delta_crankers.ChainReader.Held.{IsCrossed, market_is_rate_crossed-Triple}
use y_delta_crankers.Handlers.Context.{HandlerContext}
use y_delta_crankers.Handlers.MatchCranker
use y_delta_crankers.Handlers.MatchCranker.Cranks.{IsCrank, Cranks, crank_one-Allowed}

-- For any policy that lets such cranks be sent.
module _ (P : Policy) (env : Env) (ctx : HandlerContext)
    (lets : (h : History) (m : Message) → IsCrank env ctx m → P h m) where
  module _ (ks : List Key) (market : MarketView) (listed : IsListedMarket env market)
      (unpaused : market.is_paused ≡ false) where
    crank_claimed-Allowed :
        IsCrossed env market.address
        → (fresh : Bool)
        → Triple
            (Allowed P ks)
            (Sent P)
            (λ s.
              AreSent P s.history
              × Holding (with_fresh (MatchCranker.market_key env ctx market) ks fresh) s)
            (MatchCranker.crank_claimed env ctx market fresh)
            (λ _ s. Allowed P ks s)
    crank_claimed-Allowed crossed true =
        bind-Triple (λ _ s. Allowed P (MatchCranker.market_key env ctx market ∷ ks) s)
          (attempt-Triple (crank_one-Allowed P env ctx lets _ market listed unpaused crossed))
          λ r.
            then-Triple {k = of_result r} (λ _ s. Allowed P ks s)
              (release_inflight-Triple (λ s js g. g) _ ks) λ u. of_result-Keeps (λ s g. g.0) r
    crank_claimed-Allowed crossed false = pure-Keeps _

    scan_market-Allowed : Keeps (Allowed P ks) (Sent P) (MatchCranker.scan_market env ctx market)
    unfolding MatchCranker.scan_market
    scan_market-Allowed =
        bind-Triple _
          (market_is_rate_crossed-Triple (message_reads P ks) env ctx.rpc market.address)
          λ crossed. known-Triple λ crosses.
            if-Triple (not crossed) (λ _. pure-Keeps _)
              λ e.
                bind-Triple
                  (λ fresh s.
                    AreSent P s.history
                    × Holding (with_fresh (MatchCranker.market_key env ctx market) ks fresh) s)
                  (claim_inflight-Triple (λ s js g. g) _ ks)
                  (crank_claimed-Allowed (crosses (passing crossed e)))

  module _ (ks : List Key) where
    counted_scan-Allowed :
        (r : Result Bool) → Keeps (Allowed P ks) (Sent P) (MatchCranker.counted_scan env ctx r)
    counted_scan-Allowed (ok n) = pure-Keeps _
    counted_scan-Allowed (err e) = pure-Keeps _
    counted_scan-Allowed panicked = panic-Keeps (λ s g. g.0)

    pub tick-Allowed :
        Triple
          (Allowed P ks)
          (Sent P)
          (λ s. Allowed P ks s × IsListed env s.markets_cache)
          (MatchCranker.tick env ctx)
          (λ _. Allowed P ks)
    unfolding MatchCranker.tick MatchCranker.visit_market
    tick-Allowed = bind-Triple _ (list_markets-Triple (message_reads P ks) env ctx.rpc) λ markets.
        known-Triple λ listed.
          then-Keeps
            (for_sum-All markets listed λ market l.
              if-Triple market.is_paused (λ _. pure-Keeps _)
                λ unpaused.
                  bind-Keeps (attempt-Keeps (scan_market-Allowed ks market l unpaused))
                    counted_scan-Allowed)
            (pure-Keeps _)

-- If every market in the cache was decoded from an answer of the node to the query for markets,
-- and every transaction sent so far is a crank (behind the instructions for the compute budget and
-- the bundle, which is empty or what one of the cranker's gateways gave for the first oracles of
-- those banks in the instruction that are pull feeds, it has exactly one instruction, paid for by
-- the fee payer, for a market decoded from such an answer that is not paused, and whose best bid
-- pays at least the rate of its best ask in some answer of the node; and the node has simulated
-- this bundle and this instruction with success, with logs that do not report zero fills), then
-- every transaction sent is still one after a tick of the match-cranker, however it ends and
-- whatever the environment answers; and if the tick ends with a value or an error, the same keys
-- are in flight.
pub match_cranker-IsCrank :
    (env : Env) (ctx : HandlerContext) (s : State)
    → IsListed env s.markets_cache
    → AreSent (Cranks env ctx) s.history
    → After
        (Allowed (Cranks env ctx) s.inflight)
        (Sent (Cranks env ctx))
        (λ _. Allowed (Cranks env ctx) s.inflight)
        (MatchCranker.tick env ctx s)
match_cranker-IsCrank env ctx s listed a =
    (tick-Allowed (Cranks env ctx) env ctx (λ h m p. p) s.inflight).run s ((a, refl), listed)
