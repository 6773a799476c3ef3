-- ===== src/Core.antt =====
-- dapper/core: the state that the debugger keeps, and its decisions.
pub mod Breakpoints
pub mod Stepping
pub mod Exceptions
pub mod JustMyCode
pub mod StructuredModel
pub mod Tasks
pub mod Threads
pub mod Variables
pub mod HitCondition
pub mod LogMessage
pub mod Resolver
pub mod DataBreakpoints
pub mod Debugger
