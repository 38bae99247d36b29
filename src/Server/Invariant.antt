-- ===== src/Server/Invariant.antt =====
-- The registry of src/server/server.cpp under what the program does.
pub mod Bodies
pub mod Requests
pub mod Endings
pub mod Steps
