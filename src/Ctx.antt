-- ===== src/Ctx.antt =====
-- src/ctx.ts: `RequestContext`, in three parts: the inputs, the body and the response builders.
pub mod Inputs
pub mod Body
pub mod Builders
pub mod BuilderLaws
pub mod BodyLaws
