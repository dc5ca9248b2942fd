-- ===== src/Registry.antt =====
-- The registry client of lib/registry, over the requests of lib/utils/httputil and the worker pool
-- of lib/concurrency.
pub mod Http
pub mod Upload
pub mod Transport
pub mod Session
pub mod Chunks
pub mod Content
pub mod Client
pub mod Delivered
pub mod Backoff
pub mod Pool
pub mod Pull
pub mod PullImage
pub mod Push
