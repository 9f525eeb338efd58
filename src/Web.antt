-- ===== src/Web.antt =====
-- What the code uses of the platform: JSON values, thrown values, and the `Headers` and `Response` of
-- the Fetch standard.
pub mod Values
pub mod Response
pub mod JsonText
pub mod Platform
pub mod HeaderLaws
