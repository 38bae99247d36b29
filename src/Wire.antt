-- ===== src/Wire.antt =====
-- include/chat/protocol.h: sockets, exact reads and writes, and the framing of messages.
pub mod Socket
pub mod Io
pub mod Frame
pub mod Reading
pub mod Writing
pub mod Receiving
pub mod Sending
pub mod Progress
pub mod Tests
