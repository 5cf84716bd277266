-- ===== src/Martian/Conn.antt =====
-- internal/martian/proxy_conn.go: a connection of a client.
pub mod Read
pub mod Write
pub mod HeaderOnly
pub mod Handle
pub mod Loop
pub mod Phase
pub mod Conforms
pub mod Rounds
