-- ===== src/Protocol.antt =====
-- include/chat/protocol.h: the constants of the protocol and the names of the statuses.
pub mod MsgType
pub mod StatusCode
pub mod Status
