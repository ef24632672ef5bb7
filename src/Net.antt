-- ===== src/Net.antt =====
-- src/net: addresses, name resolution and TCP connections.
pub mod Endpoint
pub mod Resolver
pub mod TcpConnection
pub mod Bounds
