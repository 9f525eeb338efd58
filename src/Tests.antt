-- ===== src/Tests.antt =====
-- Concrete inputs on which the theorems of this library apply.
mod Data
mod Paths
mod Requests
mod Responses
mod Hooks
mod Runtime
mod Emission
mod Build
