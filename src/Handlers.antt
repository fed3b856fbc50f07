-- ===== src/Handlers.antt =====
-- src/handlers: the five crankers, one loop body each, over the shared context.
pub mod Util
pub mod Context
pub mod Liquidator
pub mod Promoter
pub mod Claimer
pub mod MatchCranker
pub mod CuratorFeeClaimer
