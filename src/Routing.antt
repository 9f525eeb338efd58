-- ===== src/Routing.antt =====
-- src/app.ts: route patterns (`compilePath`), the table of parameter routes and the search for a
-- route. What a route does is a parameter `A`: a template or a handler in the application.
pub mod Pattern
pub mod Table
pub mod Search
pub mod Fits
pub mod Insertion
pub mod Matching
pub mod Splitting
pub mod Registered
pub mod Found
pub mod FindLaws
pub mod Params
