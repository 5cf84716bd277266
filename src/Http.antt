-- ===== src/Http.antt =====
-- net/http's headers, and the parts of requests and responses that the modifiers read and write.
pub mod Headers
pub mod Message
pub mod Text
pub mod Rules
