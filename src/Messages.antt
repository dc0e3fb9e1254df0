-- ===== src/Messages.antt =====
-- messages/: the wire format.
pub mod Fault
pub mod Length
pub mod Utf8
pub mod Reader
pub mod Validation
pub mod Publish
pub mod Ack
pub mod Subscribe
pub mod Connect
pub mod Types
pub mod Codec
