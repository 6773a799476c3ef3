-- ===== src/FrameEval.antt =====
-- dapper/_frame_eval: the caches of the frame evaluator.
pub mod CodeCache
pub mod BreakpointCache
pub mod CodeFiles
pub mod Telemetry
pub mod Compatibility
pub mod Conditions
pub mod BytecodeSafety
pub mod Tracer
