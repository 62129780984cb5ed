-- ===== src/Hosts.antt =====
-- backend/core/update_actions/update_host_containers.py, update_all_containers.py and
-- backend/core/check_actions/check_all_containers.py: the runs over a host, and over all hosts.
pub mod PlanKey
pub mod Update
pub mod All
