-- ===== src/Shared.antt =====
-- dapper/shared: what the debugger and the launcher share.
pub mod Dispatcher
pub mod Policy
pub mod Registry
pub mod Catalog
pub mod SteppingHandlers
pub mod BreakpointHandlers
pub mod StackHandlers
pub mod SourceHandlers
