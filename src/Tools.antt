-- ===== src/Tools.antt =====
-- src/bob/tools: what the agents use.
pub mod EventBus
pub mod StateManager
