-- ===== src/Net.antt =====
-- The networking layer: include/net and src/net, less the parsers.
pub mod Sys
pub mod EventLoop
pub mod Socket
pub mod Connection
pub mod Serving
pub mod ThreadPool
