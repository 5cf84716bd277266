-- ===== src/Tests.antt =====
-- Runs of the models at concrete inputs, and the theorems at inputs that meet their hypotheses.
mod ProxyProtocol
mod Http2
mod Headers
mod Forwarding
mod Connections
mod Network
mod Relaying
mod Services
