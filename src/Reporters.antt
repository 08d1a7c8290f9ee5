-- ===== src/Reporters.antt =====
-- The reporters of the repository, each an instance of the `Reporter` interface.
pub mod Test
pub mod Stdout
pub mod Metrics
pub mod Prometheus
pub mod Otel
pub mod Grpc
pub mod Http
pub mod Laws
