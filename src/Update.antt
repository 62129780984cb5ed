-- ===== src/Update.antt =====
-- backend/core/update_actions: the execution of an update plan.
pub mod Wait
pub mod Hooks
pub mod Item
pub mod Prepare
pub mod Stop
pub mod Step
pub mod Rules
pub mod Keeps
pub mod Records
pub mod Run
