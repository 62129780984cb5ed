-- ===== src/Plan.antt =====
-- `build_update_plan` of backend/core/update_actions/update_actions_plan.py.
pub mod Select
pub mod Maps
pub mod Build
pub mod Selected
pub mod Edges
pub mod Members
pub mod Contract
pub mod Ends
