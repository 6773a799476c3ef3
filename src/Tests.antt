-- ===== src/Tests.antt =====
-- The theorems at concrete inputs.
mod Breakpoints
mod Commands
mod Expressions
mod Handlers
mod Ipc
mod Lines
mod Messages
mod Protocol
mod Programs
mod Sources
mod Tasks
mod Tracer
mod Values
