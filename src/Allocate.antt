-- ===== src/Allocate.antt =====
-- titus_isolate/allocate: the allocators, each a function of the request. An allocator works on the
-- request's CPU in place, so a call yields a response or an exception, and the CPU it leaves.
pub mod Response
pub mod Forms
pub mod Choice
pub mod Remote
pub mod Request
pub mod Greedy
pub mod Naive
pub mod Noop
pub mod Fallback
mod Tests
