-- ===== src/Socks.antt =====
-- socksserver/server.go: the SOCKS5 server, over a connection, a database and a network.
pub mod Wire
pub mod Auth
pub mod Quota
pub mod Relay
pub mod Address
pub mod Request
