-- ===== src/Template.antt =====
-- src/app.ts: route templates. `{{ token }}` in the strings of a body is replaced by a value of the
-- request.
pub mod Scan
pub mod Render
pub mod Identity
