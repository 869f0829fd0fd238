-- ===== src/Isolate/Balance/Improves.antt =====
-- The order that `has_better_isolation` makes of placements.
use titus_isolate.Processor.Cpu.{Cpu}
