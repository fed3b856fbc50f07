-- ===== src/Handlers/Promoter/Promotions/Queue.antt =====
-- What the loop of the promoter (src/handlers/promoter.rs) over the queues of the markets sends.
use y_delta_crankers.Base.{◌≡◌, refl, false, List, [], ◌∷◌, All}
use y_delta_crankers.System.Types.{MarketView, PendingMatchedLoan, Message}
use y_delta_crankers.System.Env.{Env, History}
use y_delta_crankers.System.Action.{Key, State, Result, ok, err, panicked, ◌>>◌}
use y_delta_crankers.System.Rules.{
  After, OfOk, attempt-OfOk, Triple, Keeps, known-Triple, weaken-Triple, bind-Triple, bind-Keeps,
  if-Keeps, if-Triple, pure-Keeps, gets-Keeps, or_fail-Keeps, panic-Keeps, for_sum-All,
}
use y_delta_crankers.System.Inflight.{guarded-Keeps}
use y_delta_crankers.Rpc.Gate.{strip_budget-preamble, simulate-Simulated}
use y_delta_crankers.Rpc.Allowed.{
  Policy, AreSent, Sent, Allowed, message_reads, send_signed_labeled-Allowed,
}
use y_delta_crankers.ChainReader.Sources.{IsListed, IsListedMarket, list_markets-Triple}
use y_delta_crankers.ChainReader.Held.{IsQueued, read_pending_matched_loans-Triple}
use y_delta_crankers.Handlers.Context.{HandlerContext, banks_snapshot}
use y_delta_crankers.Handlers.Promoter
use y_delta_crankers.Handlers.Promoter.Promotions.{
  IsPromotion, Promotions, assemble_vault_settle-Triple,
}

-- For any policy.
module _ (P : Policy) (ks : List Key) (env : Env) (ctx : HandlerContext) where
  module _ (lets : (h : History) (m : Message) → IsPromotion env ctx m → P h m)
      (market : MarketView) (listed : IsListedMarket env market)
      (unpaused : market.is_paused ≡ false) where
    promote_one-Allowed :
        (entry : PendingMatchedLoan)
        → IsQueued env ctx.rpc market.address entry
        → Keeps (Allowed P ks) (Sent P) (Promoter.promote_one env ctx market entry)
    unfolding Promoter.promote_one Promoter.promote_ix banks_snapshot ◌>>◌
    promote_one-Allowed entry queued = bind-Keeps (gets-Keeps _) λ banks.
        bind-Keeps (or_fail-Keeps _ _) λ bank.
          bind-Triple _ (assemble_vault_settle-Triple P ks env ctx market entry bank)
            λ vault_settle. known-Triple λ settled.
              bind-Keeps (weaken-Triple (λ r s h. h.0) (simulate-Simulated P ks env ctx.rpc _ _))
                λ sim. if-Keeps _ (pure-Keeps _) (
                  bind-Keeps
                    (send_signed_labeled-Allowed P ks env ctx.rpc _ _ ctx.signers.fee_payer []
                      λ n h. lets h _ (record {
                        market = market;
                        entry = entry;
                        bank = bank;
                        vault_settle = vault_settle;
                        listed = listed;
                        unpaused = unpaused;
                        queued = queued;
                        settled = settled;
                        carried =
                            strip_budget-preamble ctx.rpc ctx.rpc.compute_unit_limit
                              (Promoter.promote_ix env ctx market entry bank vault_settle ∷ []);
                        paid = refl;
                      }))
                    λ sig. pure-Keeps _)

-- For any policy that lets such promotions be sent.
module _ (P : Policy) (ks : List Key) (env : Env) (ctx : HandlerContext)
    (lets : (h : History) (m : Message) → IsPromotion env ctx m → P h m) where
  promote_all-Allowed :
      (market : MarketView)
      → IsListedMarket env market
      → market.is_paused ≡ false
      → (r : Result (List PendingMatchedLoan))
      → Triple
          (Allowed P ks)
          (Sent P)
          (λ s. Allowed P ks s × OfOk (All (IsQueued env ctx.rpc market.address)) r)
          (Promoter.promote_all env ctx market r)
          (λ _. Allowed P ks)
  promote_all-Allowed market listed unpaused (ok pending) = known-Triple λ queued.
      for_sum-All pending queued λ entry q.
        guarded-Keeps (λ s js a. a) _ ks
          (λ js. promote_one-Allowed P js env ctx lets market listed unpaused entry q)
  promote_all-Allowed market listed unpaused (err e) = known-Triple λ _. pure-Keeps _
  promote_all-Allowed market listed unpaused panicked = known-Triple λ _. panic-Keeps (λ s a. a.0)

  visit_market-Allowed :
      (market : MarketView)
      → IsListedMarket env market
      → Keeps (Allowed P ks) (Sent P) (Promoter.visit_market env ctx market)
  unfolding Promoter.visit_market
  visit_market-Allowed market listed =
      if-Triple market.is_paused (λ e. pure-Keeps _)
        λ unpaused.
          bind-Triple _
            (attempt-OfOk
              (read_pending_matched_loans-Triple (message_reads P ks) env ctx.rpc market.address))
            (promote_all-Allowed market listed unpaused)

  pub tick-Allowed :
      Triple
        (Allowed P ks)
        (Sent P)
        (λ s. Allowed P ks s × IsListed env s.markets_cache)
        (Promoter.tick env ctx)
        (λ _. Allowed P ks)
  unfolding Promoter.tick ◌>>◌
  tick-Allowed = bind-Triple _ (list_markets-Triple (message_reads P ks) env ctx.rpc) λ markets.
      known-Triple λ listed.
        bind-Keeps (for_sum-All markets listed λ market l. visit_market-Allowed market l)
          λ n. pure-Keeps _

-- If every market in the cache was decoded from an answer of the node to the query for markets, and
-- every transaction sent so far is a promotion (behind the instructions for the compute budget it
-- has one instruction, paid for by the fee payer, for a market decoded from such an answer that is
-- not paused and an entry of that market's queue in some answer of the node; the bundle for the
-- vault is there if and only if the entry needs one and a sub-vault owns the lender's seat in some
-- answer of the node, and then it is made for the seat's owner, which is the vault that is derived
-- from the bank), then every transaction sent is still one after a tick of the promoter, however it
-- ends and whatever the environment answers; and if the tick ends with a value or an error, the
-- same keys are in flight.
pub promoter-IsPromotion :
    (env : Env) (ctx : HandlerContext) (s : State)
    → IsListed env s.markets_cache
    → AreSent (Promotions env ctx) s.history
    → After
        (Allowed (Promotions env ctx) s.inflight)
        (Sent (Promotions env ctx))
        (λ _. Allowed (Promotions env ctx) s.inflight)
        (Promoter.tick env ctx s)
promoter-IsPromotion env ctx s listed a =
    (tick-Allowed (Promotions env ctx) s.inflight env ctx (λ h m p. p)).run s ((a, refl), listed)
