-- ===== src/Examples.antt =====
-- Runs of the theorems at concrete inputs.
mod Data
mod Manager
mod Lifecycle
mod System
mod Reporters
mod Server
mod Discovery
mod Cached
mod Checkers
mod Metrics
mod Fetch
mod Programs
