-- ===== src/ProxyProto.antt =====
-- proxyproto/: the PROXY protocol header in front of a connection's bytes.
pub mod Header
pub mod V1
pub mod V2
pub mod Read
pub mod Tlv
pub mod Conn
