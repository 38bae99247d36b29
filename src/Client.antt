-- ===== src/Client.antt =====
-- src/client: what the client sends to the server, and what it makes of the server's messages.
pub mod Sender
pub mod Thread
pub mod Signals
pub mod Lifetime
pub mod Stopped
pub mod Stepwise
pub mod Qt
pub mod Window
pub mod Main
pub mod Handshake
pub mod Joining
pub mod Delivered
mod Tests
