-- ===== src/Net.antt =====
-- net.go and conntrack/: dialing, listening and counting of the bytes of a connection.
pub mod Redirect
pub mod Dialer
pub mod Conntrack
pub mod Listen
pub mod DialVia
