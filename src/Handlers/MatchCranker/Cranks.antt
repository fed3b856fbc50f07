-- ===== src/Handlers/MatchCranker/Cranks.antt =====
-- Which markets the match-cranker (src/handlers/match_cranker.rs) cranks, and after which answers.
pub mod Scan
use y_delta_crankers.Base.{
  ℕ, inl, ◌≡◌, refl, not, Bool, true, false, List, [], ◌∷◌, ◌++◌, Option, none, some,
}
use y_delta_crankers.System.Types.{Pubkey, Instruction, Lut, BankInfo, MarketView, Message}
use y_delta_crankers.System.Env.{Env, History}
use y_delta_crankers.System.Action.{
  Key, State, Result, ok, err, panicked, pure, of_result, ◌>>=◌, ◌>>◌,
}
use y_delta_crankers.System.Rules.{
  After, Triple, Keeps, known-Triple, bind-Triple, bind-Keeps, then-Keeps, then-Triple, if-Keeps,
  if-Triple, pure-Keeps, gets-Keeps, or_fail-Keeps, of_result-Keeps, attempt-Keeps, panic-Keeps,
  for_sum-All,
}
use y_delta_crankers.System.Inflight.{
  Holding, with_fresh, claim_inflight-Triple, release_inflight-Triple, attempt-Triple,
}
use y_delta_crankers.Rpc
use y_delta_crankers.Rpc.Answered.{IsAnswered, simulate_v0-Triple}
use y_delta_crankers.Rpc.Gate.{passing}
use y_delta_crankers.Rpc.Allowed.{
  Policy, AreSent, Sent, Allowed, message_reads, send_signed_v0_labeled-Allowed,
}
use y_delta_crankers.ChainReader.Sources.{IsListed, IsListedMarket, list_markets-Triple}
use y_delta_crankers.ChainReader.Held.{IsCrossed, market_is_rate_crossed-Triple}
use y_delta_crankers.SwbCranker.{SwbCranker, Bundle}
use y_delta_crankers.SwbCranker.Quiet.{fetch_update_ixs-Keeps}
use y_delta_crankers.Handlers.Context.{HandlerContext, banks_snapshot}
use y_delta_crankers.Handlers.Liquidator.Bundled.{IsBundle, fetch_or_empty-Triple}
use y_delta_crankers.Handlers.MatchCranker
use y_delta_crankers.Handlers.MatchCranker.Logs.{parse_match_crank_fills}

-- The node has simulated the bundle with success, and the logs of its answer do not report zero
-- fills.
abbrev pub IsWorthCranking : Env → HandlerContext → List Instruction → List Lut → Type 0
IsWorthCranking env ctx bundle luts =
    (sim : Rpc.SimulationResult) × IsAnswered env bundle luts (env.pubkey_of ctx.signers.fee_payer)
      sim
    × (sim.is_ok ≡ true)
    × (MatchCranker.is_productive (parse_match_crank_fills env sim.logs) ≡ true)

-- The message cranks a market that is not paused and whose best rates cross, behind a bundle of
-- oracle updates; the fee payer pays.
pub record IsCrank (env : Env) (ctx : HandlerContext) (m : Message) : Type 0 where
  pub market : MarketView
  pub debt_bank : BankInfo
  pub collateral_bank : BankInfo
  pub swb : Bundle
  pub listed : IsListedMarket env market
  pub unpaused : market.is_paused ≡ false
  pub crossed : IsCrossed env market.address
  pub bundled : IsBundle env ctx.swb_cranker (MatchCranker.pull_feeds debt_bank collateral_bank) swb
  pub worth :
      IsWorthCranking env ctx
        (swb.0 ++ MatchCranker.crank_ix env ctx market debt_bank collateral_bank ∷ [])
        swb.1
  pub carried :
      m.ixs
      ≡ Rpc.priority_fee_preamble ctx.rpc Rpc.v0_compute_unit_limit
        ++ (swb.0 ++ MatchCranker.crank_ix env ctx market debt_bank collateral_bank ∷ [])
  pub tabled : m.luts ≡ swb.1
  pub paid : m.payer ≡ env.pubkey_of ctx.signers.fee_payer

-- The policy of the match-cranker.
abbrev pub Cranks : Env → HandlerContext → Policy
Cranks env ctx h m = IsCrank env ctx m

-- For any policy that lets such cranks be sent.
module _ (P : Policy) (env : Env) (ctx : HandlerContext)
    (lets : (h : History) (m : Message) → IsCrank env ctx m → P h m) where
  module _ (ks : List Key) where
    bundle_from-Triple :
        (feeds : List Pubkey) (cranker : Option SwbCranker)
        → Triple
            (Allowed P ks)
            (Sent P)
            (Allowed P ks)
            (MatchCranker.bundle_from env ctx feeds cranker)
            (λ bundle s. Allowed P ks s × IsBundle env cranker feeds bundle)
    unfolding pure
    bundle_from-Triple feeds none = record { run = λ s a. (a, refl) }
    bundle_from-Triple [] (some cranker) = record { run = λ s a. (a, inl refl) }
    bundle_from-Triple (f ∷ fs) (some cranker) =
        fetch_or_empty-Triple (message_reads P ks) env cranker (f ∷ fs)

    crank_bundle-Allowed :
        (bundle : List Instruction) (luts : List Lut)
        → (IsWorthCranking env ctx bundle luts
            → (n : ℕ) (h : History)
            → P h (record {
              payer = env.pubkey_of ctx.signers.fee_payer;
              ixs = Rpc.priority_fee_preamble ctx.rpc Rpc.v0_compute_unit_limit ++ bundle;
              luts = luts;
              blockhash = n;
            }))
        → Keeps (Allowed P ks) (Sent P) (MatchCranker.crank_bundle env ctx bundle luts)
    unfolding MatchCranker.crank_bundle ◌>>◌
    crank_bundle-Allowed bundle luts p =
        bind-Triple _ (simulate_v0-Triple (message_reads P ks) env ctx.rpc bundle luts _) λ sim.
          known-Triple λ answered.
            if-Triple (not sim.is_ok) (λ _. pure-Keeps _)
              λ passes.
                if-Triple (MatchCranker.is_productive (parse_match_crank_fills env sim.logs))
                  (λ fills.
                    bind-Keeps
                      (send_signed_v0_labeled-Allowed P ks env ctx.rpc _ bundle luts
                        ctx.signers.fee_payer []
                        (p (sim, answered, passing sim.is_ok passes, fills)))
                      (λ sig. pure-Keeps _))
                  (λ _. pure-Keeps _)

    pub crank_one-Allowed :
        (market : MarketView)
        → IsListedMarket env market
        → market.is_paused ≡ false
        → IsCrossed env market.address
        → Keeps (Allowed P ks) (Sent P) (MatchCranker.crank_one env ctx market)
    unfolding MatchCranker.crank_one MatchCranker.fetch_swb_bundle banks_snapshot
    crank_one-Allowed market listed unpaused crossed = bind-Keeps (gets-Keeps _) λ banks.
        bind-Keeps (or_fail-Keeps _ _) λ debt_bank.
          bind-Keeps (or_fail-Keeps _ _) λ collateral_bank.
            bind-Triple _ (bundle_from-Triple _ ctx.swb_cranker) λ swb. known-Triple λ given.
              crank_bundle-Allowed _ swb.1 λ worth n h. lets h _ (record {
                market = market;
                debt_bank = debt_bank;
                collateral_bank = collateral_bank;
                swb = swb;
                listed = listed;
                unpaused = unpaused;
                crossed = crossed;
                bundled = given;
                worth = worth;
                carried = refl;
                tabled = refl;
                paid = refl;
              })
