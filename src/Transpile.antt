-- ===== src/Transpile.antt =====
-- packages/aot-transpiler: from a handler's syntax tree to the Rust function that answers for it.
pub mod Shapes
pub mod Reads
pub mod ReadLaws
pub mod Json
pub mod Value
pub mod LiteralLaws
pub mod Meaning
pub mod Written
pub mod JsonLaws
pub mod Chain
pub mod Extract
pub mod ChainLaws
pub mod ExtractLaws
pub mod Guards
pub mod Formula
pub mod GuardLaws
pub mod WalkLaws
pub mod Function
pub mod Source
pub mod FunctionLaws
