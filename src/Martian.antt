-- ===== src/Martian.antt =====
-- internal/martian: the proxy of a connection, its modifiers, certificates and views of messages.
pub mod HopByHop
pub mod Via
pub mod Framing
pub mod Forwarded
pub mod Flush
pub mod Failure
pub mod Events
pub mod Proxy
pub mod Connect
pub mod Conn
pub mod Serve
pub mod Handler
pub mod Fifo
pub mod MessageHeader
pub mod Mitm
pub mod View
