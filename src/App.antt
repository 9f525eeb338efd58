-- ===== src/App.antt =====
-- src/app.ts: `App`: registration, the request handlers of the Node and the Bun runtime, and `listen`.
pub mod State
pub mod Node
pub mod NodeLaws
pub mod Bun
pub mod Listen
pub mod Benchmark
pub mod BunLaws
pub mod ListenLaws
