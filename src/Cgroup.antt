-- ===== src/Cgroup.antt =====
-- titus_isolate/cgroup: the cgroup files of containers.
pub mod Interface
pub mod Utils
pub mod File
