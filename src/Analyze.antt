-- ===== src/Analyze.antt =====
-- packages/aot-analyzer: whether a handler is in the subset that the transpiler takes.
pub mod Walk
pub mod Uses
pub mod Handler
pub mod Rules
pub mod Analysis
pub mod Allowed
pub mod Laws
pub mod Agreement
pub mod Handles
pub mod HandleLaws
