-- ===== src/Processor.antt =====
-- titus_isolate/model/processor: the CPU as packages of cores of hardware threads.
pub mod Thread
pub mod Utils
pub mod Core
pub mod Package
pub mod Cpu
pub mod Config
pub mod Claims
pub mod Empty
pub mod Everywhere
pub mod Visualize
mod Tests
