-- ===== src/Builtins.antt =====
-- The built-in features of an application: CORS and the security headers.
pub mod Features
pub mod Headers
pub mod Configs
pub mod Cache
