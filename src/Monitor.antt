-- ===== src/Monitor.antt =====
-- titus_isolate/monitor: the resource usage of workloads.
pub mod ResourceUsage
pub mod Collected
pub mod Prometheus
