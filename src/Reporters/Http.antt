-- ===== src/Reporters/Http.antt =====
-- reporter/httpserver: the HTTP reporter, its cache, its routes and its middleware.
pub mod Writer
pub mod State
pub mod Probes
pub mod Checks
pub mod Answers
pub mod Config
pub mod Routes
pub mod Server
pub mod Middleware
pub mod Recover
pub mod Cache
