-- ===== src/Check.antt =====
-- The check for new images: backend/core/check_actions, and the row that it writes by
-- backend/modules/containers/containers_util.py.
pub mod Row
pub mod Verdict
pub mod One
pub mod Outcome
pub mod Others
pub mod Released
pub mod Agrees
pub mod Queue
pub mod Host
