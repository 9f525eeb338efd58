-- ===== src/Emit.antt =====
-- packages/aot-transpiler: the text that the transpiler emits.
pub mod Escape
pub mod EscapeLaws
pub mod StatusText
pub mod Response
pub mod Machine
pub mod Wire
pub mod ResponseLaws
