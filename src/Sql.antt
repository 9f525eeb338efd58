-- ===== src/Sql.antt =====
-- src/sql.ts, packages/aot-analyzer/src/sql-template.ts and packages/aot-build/src/sql-collection.ts:
-- SQL templates at runtime and at build time, and the statements of all handlers.
pub mod Template
pub mod Collection
pub mod TemplateLaws
pub mod Kept
pub mod CollectionLaws
