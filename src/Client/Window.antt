-- ===== src/Client/Window.antt =====
-- src/client/mainwindow.cpp and src/client/mainwindow.h: the window of the client.
pub mod State
pub mod Output
pub mod Actions
pub mod Slots
pub mod Events
pub mod Statuses
pub mod Reachable
pub mod Users
pub mod Agreement
pub mod Pages
pub mod Tabs
pub mod TabSafety
pub mod Sockets
pub mod ClosedTab
pub mod StartDm
pub mod Requests
pub mod Talking
pub mod Tests
