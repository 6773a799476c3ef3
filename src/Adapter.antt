-- ===== src/Adapter.antt =====
-- dapper/adapter: the side of the debugger that the editor talks to.
pub mod Sources
