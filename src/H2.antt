-- ===== src/H2.antt =====
-- internal/martian/h2: the relays of a proxied HTTP/2 connection.
pub mod Frame
pub mod Chunks
pub mod Output
pub mod Relay
pub mod Writer
pub mod Threads
pub mod Setup
pub mod Process
pub mod Grpc
