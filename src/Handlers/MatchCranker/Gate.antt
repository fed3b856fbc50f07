-- ===== src/Handlers/MatchCranker/Gate.antt =====
-- The match-cranker pays for no transaction that a simulation has not passed.
use y_delta_crankers.Base.{refl, Bool, true, false, not, List, [], ◌∷◌, Option, none, some}
use y_delta_crankers.System.Types.{Pubkey, Lut, Instruction, MarketView}
use y_delta_crankers.System.Env.{Env}
use y_delta_crankers.System.Action.{Key, of_result, State, Result, ok, err, panicked, ◌>>◌}
use y_delta_crankers.System.Rules.{
  After, Keeps, Triple, then-Triple, bind-Triple, bind-Keeps, then-Keeps, if-Keeps, if-Triple,
  pure-Keeps, gets-Keeps, or_fail-Keeps, of_result-Keeps, attempt-Keeps, panic-Keeps, for_sum-Keeps,
  mono-Triple,
}
use y_delta_crankers.System.Inflight.{
  claim_inflight-Triple, release_inflight-Triple, attempt-Triple, with_fresh, Holding,
}
use y_delta_crankers.Rpc.Allowed.{Policy, AreSent, Sent, Allowed, message_reads}
use y_delta_crankers.Rpc.Gate.{
  Passed, Lets, AreGated, Gated, Crashed, Simulated, simulate_v0-Simulated,
  send_signed_v0_labeled-Cleared, passing,
}
use y_delta_crankers.ChainReader.Quiet.{list_markets-Keeps, market_is_rate_crossed-Keeps}
use y_delta_crankers.SwbCranker.{SwbCranker}
use y_delta_crankers.SwbCranker.Quiet.{fetch_update_ixs-Keeps}
use y_delta_crankers.Handlers.Context.{HandlerContext, banks_snapshot}
use y_delta_crankers.Handlers.Liquidator.Quiet.{or_empty-Keeps}
use y_delta_crankers.Handlers.MatchCranker
use y_delta_crankers.Handlers.MatchCranker.Logs.{parse_match_crank_fills}

module _ (P : Policy) (lets : Lets P) (ks : List Key) (env : Env) (ctx : HandlerContext) where
  bundle_from-Allowed :
      (feeds : List Pubkey) (cranker : Option SwbCranker)
      → Keeps (Allowed P ks) (Sent P) (MatchCranker.bundle_from env ctx feeds cranker)
  bundle_from-Allowed feeds none = pure-Keeps _
  bundle_from-Allowed [] (some cranker) = pure-Keeps _
  bundle_from-Allowed (f ∷ fs) (some cranker) =
      bind-Keeps (attempt-Keeps (fetch_update_ixs-Keeps (message_reads P ks) env cranker (f ∷ fs)))
        (or_empty-Keeps (message_reads P ks) env ctx)

  crank_bundle-Allowed :
      (bundle : List Instruction) (luts : List Lut)
      → Keeps (Allowed P ks) (Sent P) (MatchCranker.crank_bundle env ctx bundle luts)
  unfolding MatchCranker.crank_bundle ◌>>◌
  crank_bundle-Allowed bundle luts =
      bind-Triple (Simulated P ks env ctx.rpc bundle)
        (simulate_v0-Simulated P ks env ctx.rpc bundle luts _)
        λ sim.
          if-Triple (not sim.is_ok) (λ e. mono-Triple (λ s c. c.0) (pure-Keeps _))
            λ e.
              if-Triple (MatchCranker.is_productive (parse_match_crank_fills env sim.logs))
                (λ _.
                  bind-Triple (λ _ s. Allowed P ks s)
                    (mono-Triple (λ s c. (c.0, c.1 (passing sim.is_ok e)))
                      (send_signed_v0_labeled-Cleared P lets ks env ctx.rpc _ bundle luts _))
                    (λ sig. pure-Keeps _))
                (λ _. mono-Triple (λ s c. c.0) (pure-Keeps _))

  crank_one-Allowed :
      (market : MarketView) → Keeps (Allowed P ks) (Sent P) (MatchCranker.crank_one env ctx market)
  unfolding MatchCranker.crank_one MatchCranker.fetch_swb_bundle banks_snapshot
  crank_one-Allowed market = bind-Keeps (gets-Keeps _) λ banks.
      bind-Keeps (or_fail-Keeps _ _) λ debt_bank. bind-Keeps (or_fail-Keeps _ _) λ collateral_bank.
        bind-Keeps (bundle_from-Allowed _ ctx.swb_cranker) λ swb. crank_bundle-Allowed _ swb.1

module _ (P : Policy) (lets : Lets P) (ks : List Key) (env : Env) (ctx : HandlerContext) where
  crank_claimed-Allowed :
      (market : MarketView) (fresh : Bool)
      → Triple
          (Allowed P ks)
          (Sent P)
          (λ s.
            AreSent P s.history
            × Holding (with_fresh (MatchCranker.market_key env ctx market) ks fresh) s)
          (MatchCranker.crank_claimed env ctx market fresh)
          (λ _ s. Allowed P ks s)
  crank_claimed-Allowed market true =
      bind-Triple (λ _ s. Allowed P (MatchCranker.market_key env ctx market ∷ ks) s)
        (attempt-Triple (crank_one-Allowed P lets _ env ctx market))
        λ r.
          then-Triple {k = of_result r} (λ _ s. Allowed P ks s)
            (release_inflight-Triple (λ s js g. g) _ ks) λ u. of_result-Keeps (λ s g. g.0) r
  crank_claimed-Allowed market false = pure-Keeps _

  scan_market-Allowed :
      (market : MarketView)
      → Keeps (Allowed P ks) (Sent P) (MatchCranker.scan_market env ctx market)
  unfolding MatchCranker.scan_market
  scan_market-Allowed market =
      bind-Keeps (market_is_rate_crossed-Keeps (message_reads P ks) env ctx.rpc market.address)
        λ crossed. if-Keeps _ (pure-Keeps _) (
          bind-Triple
            (λ fresh s.
              AreSent P s.history
              × Holding (with_fresh (MatchCranker.market_key env ctx market) ks fresh) s)
            (claim_inflight-Triple (λ s js g. g) _ ks) (crank_claimed-Allowed market))

  counted_scan-Allowed :
      (r : Result Bool) → Keeps (Allowed P ks) (Sent P) (MatchCranker.counted_scan env ctx r)
  counted_scan-Allowed (ok n) = pure-Keeps _
  counted_scan-Allowed (err e) = pure-Keeps _
  counted_scan-Allowed panicked = (panic-Keeps (λ s g. g.0))

  pub tick-Allowed : Keeps (Allowed P ks) (Sent P) (MatchCranker.tick env ctx)
  unfolding MatchCranker.tick MatchCranker.visit_market
  tick-Allowed =
      (bind-Keeps (list_markets-Keeps (message_reads P ks) env ctx.rpc) λ markets.
        then-Keeps
          (for_sum-Keeps markets λ m.
            if-Keeps m.is_paused (pure-Keeps _)
              (bind-Keeps (attempt-Keeps (scan_market-Allowed m)) counted_scan-Allowed))
          (pure-Keeps _))

-- If every transaction sent so far had passed a simulation of its instructions (those for the
-- compute budget in front aside) before it was sent, this still holds after a tick of the
-- match-cranker, however the tick ends and whatever the environment answers; and if the tick ends
-- with a value or an error, the same keys are in flight after it as before.
pub match_cranker-Gated :
    (env : Env) (ctx : HandlerContext) (s : State)
    → AreGated s.history
    → After (Gated s.inflight) Crashed (λ _ t. Gated s.inflight t) (MatchCranker.tick env ctx s)
match_cranker-Gated env ctx s g =
    (tick-Allowed Passed (λ h m p. p) s.inflight env ctx).run s (g, refl)
