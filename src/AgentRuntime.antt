-- ===== src/AgentRuntime.antt =====
-- The runtime that executes agent runs, apps/agent-runtime/src/runtime.ts: its text functions and the
-- coalescer, and the life of a run.
pub mod Text
pub mod Coalescer
pub mod Run
pub mod Context
pub mod Settings
mod Tests
