-- ===== src/Server.antt =====
-- src/server/server.cpp and include/chat/server.h: the chat server.
pub mod State
pub mod Sending
pub mod Session
pub mod Sorting
pub mod Handlers
pub mod Watchdog
pub mod Client
pub mod Lifecycle
pub mod Main
pub mod Options
pub mod Events
pub mod Threads
pub mod Dispatching
pub mod Registry
pub mod Invariant
pub mod Registration
pub mod Activity
pub mod Requests
pub mod Delivery
pub mod Watching
pub mod Profiles
pub mod Absence
pub mod Connection
pub mod Listing
pub mod Unordered
pub mod Accepting
pub mod Stopping
pub mod Typing
pub mod Malformed
pub mod Leaving
pub mod Tests
