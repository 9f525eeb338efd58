-- ===== src/Build.antt =====
-- packages/aot-build/src/index.ts: from the registrations of an app to its routes, each compiled to Rust,
-- forwarded to Bun, or left as a template.
pub mod Compile
pub mod Names
