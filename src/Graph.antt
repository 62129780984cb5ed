-- ===== src/Graph.antt =====
-- The two graph walks inside `build_update_plan` of backend/core/update_actions/update_actions_plan.py.
mod Missing
pub mod Bfs
pub mod Dfs
