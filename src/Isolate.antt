-- ===== src/Isolate.antt =====
-- titus_isolate/isolate: what a placement is worth.
pub mod Detect
pub mod Balance
pub mod MetricsUtils
pub mod Reconciler
mod Tests
