-- ===== src/Tests/Repayments.antt =====
-- What the liquidator and the promoter send in the world of Tests/World, where a loan is overdue
-- and another is pending.
use y_delta_crankers.Base.{[]}
use y_delta_crankers.System.Rules.{After}
use y_delta_crankers.Rpc.Allowed.{Sent, Allowed}
use y_delta_crankers.Handlers.Liquidator
use y_delta_crankers.Handlers.Liquidator.Repayments.{Repayments}
use y_delta_crankers.Handlers.Liquidator.Repayments.Scan.{liquidator-IsRepayment}
use y_delta_crankers.Handlers.Promoter
use y_delta_crankers.Handlers.Promoter.Promotions.{Promotions}
use y_delta_crankers.Handlers.Promoter.Promotions.Queue.{promoter-IsPromotion}
use y_delta_crankers.Handlers.MatchCranker
use y_delta_crankers.Handlers.MatchCranker.Cranks.{Cranks}
use y_delta_crankers.Handlers.MatchCranker.Cranks.Scan.{match_cranker-IsCrank}
use y_delta_crankers.Handlers.Claimer
use y_delta_crankers.Handlers.Claimer.Sweeps.{Sweeps, claimer-IsSweep}
use y_delta_crankers.Tests.World.{world, ctx, start}

liquidator-IsRepayment_example :
    After
      (Allowed (Repayments world ctx) [])
      (Sent (Repayments world ctx))
      (λ _. Allowed (Repayments world ctx) [])
      (Liquidator.tick world ctx start)
liquidator-IsRepayment_example = liquidator-IsRepayment world ctx start tt tt

promoter-IsPromotion_example :
    After
      (Allowed (Promotions world ctx) [])
      (Sent (Promotions world ctx))
      (λ _. Allowed (Promotions world ctx) [])
      (Promoter.tick world ctx start)
promoter-IsPromotion_example = promoter-IsPromotion world ctx start tt tt

claimer-IsSweep_example :
    After
      (Allowed (Sweeps world ctx) [])
      (Sent (Sweeps world ctx))
      (λ _. Allowed (Sweeps world ctx) [])
      (Claimer.tick world ctx start)
claimer-IsSweep_example = claimer-IsSweep world ctx start tt tt

match_cranker-IsCrank_example :
    After
      (Allowed (Cranks world ctx) [])
      (Sent (Cranks world ctx))
      (λ _. Allowed (Cranks world ctx) [])
      (MatchCranker.tick world ctx start)
match_cranker-IsCrank_example = match_cranker-IsCrank world ctx start tt tt
