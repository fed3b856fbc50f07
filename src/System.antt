-- ===== src/System.antt =====
-- The shared substrate of the modules: values, the outside world, actions and their rules.
pub mod Types
pub mod Env
pub mod Action
pub mod Outcome
pub mod Host
pub mod Rules
pub mod Quiet
pub mod Inflight
