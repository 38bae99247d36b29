-- ===== src/Lib.antt =====
-- Simple-Chat-Protocol: a verification of the chat server, the wire protocol and the client.
--
-- The program is a chat server and a Qt client that exchange protobuf messages over TCP. Each
-- message travels as a frame: one byte for its type, four for the length, then the payload
-- (include/chat/protocol.h). The server (src/server/server.cpp, include/chat/server.h) runs a
-- thread for each connection, which reads frames and hands each to the handler of its type, and
-- a watchdog thread, which marks idle users. They share the registry: `sessions_` from sockets
-- to sessions, with the indexes `username_to_fd_` and `ip_to_fd_`. The client connects and
-- registers (src/client/main.cpp), then opens its window (src/client/mainwindow.cpp), which
-- sends what the user asks for and is told by a thread what the server has sent
-- (src/client/network.cpp).
--
-- What models what:
-- - Prelude: the names taken from the libraries, Boolean tests, bits, text, `std::unordered_map`
--   as an association list (Prelude/Map), and `std::atoi` (Prelude/Number, with Prelude/Decimal
--   on what it makes of printed numbers). The order of the list stands for the order of
--   iteration.
-- - Wire: include/chat/protocol.h. Wire/Socket is the interface of a socket, whose `recv` and
--   `send` transfer any number of bytes up to the one asked for, with the laws that POSIX gives.
--   Wire/Io has `read_exact` and `write_exact`, Wire/Frame `send_message` and `recv_message`.
--   Wire/Reading, Wire/Writing, Wire/Receiving and Wire/Sending are about what they do, with
--   Wire/Progress.
-- - Protocol: the message types, the status codes and the names of the statuses.
-- - Messages: the messages of protos/, and the interface of what protoc generates (`Format`).
--   What the server takes from outside, parsers and `getpeername`, is the record `World`.
-- - Server: src/server/server.cpp. Server/State has the members of `ChatServer` and
--   `SessionInfo`, Server/Sending the helpers that send, Server/Session creation, removal and
--   activity of a session, Server/Handlers the seven handlers, Server/Watchdog `watchdog_loop`,
--   Server/Client `handle_client`, Server/Lifecycle the constructor, `run` and `stop`,
--   Server/Sorting the sort of the user list.
-- - Server/Events: the server as a state machine. An event is a message that a thread handles,
--   the end of a connection, a round of the watchdog, a new connection, or `stop`; `run` is a
--   sequence of events in any order, each handler at once.
-- - Server/Threads: the threads in small steps. A message that a thread reads becomes a list of
--   parts (`Act`), which `carry_out` (Server/Threads/Doing) does one by one; a part is one
--   critical section, one send, one `close`, or the accesses to one session without a lock.
--   Server/Threads/Machine has the threads side by side, with the watchdog, the accept loop and
--   `stop`, whose moves come in any order. Orderly, Parts, Standing and Reachable are about the
--   states they reach, Ownership about who writes to a session, Progress and Ending about a thread that gets its turns, Promises, Spreading, Broadcasting and Answering about
--   what a thread sends, and Alone, Handling, Calm and Refinement about how the events of
--   Server/Events are runs of the threads, with Putting.
-- - Server/Registry says what a consistent registry is, and Server/Invariant is about registries
--   and events. The other modules of Server are about what the operations do:
--   Server/Registration the registration, Server/Delivery general and direct messages,
--   Server/Profiles statuses and questions about a user, Server/Listing the list of users (with
--   Server/Unordered on the order of the map), Server/Absence names that nobody has and the end
--   of an inactivity (with Server/Activity), Server/Requests and Server/Malformed what is
--   refused, Server/Leaving Quit, Server/Typing the types of the messages, Server/Watching the
--   watchdog, Server/Connection the read loop, Server/Accepting the accept loop, and
--   Server/Stopping `stop`.
-- - Server/Main: the arguments of src/server/main.cpp; Server/Options is about them.
-- - Client: src/client/network.cpp. Client/Sender has `NetworkSender`, Client/Thread
--   `NetworkThread`; Client/Signals is about what the window is told, and Client/Delivered about
--   a direct and a general message from the client to the server's handlers. Client/Lifetime has
--   the thread object with `stopThread` and the destructor, and the loop step by step;
--   Client/Stopped is about a thread that is stopped, and Client/Stepwise about the loop in
--   steps.
-- - Client/Main: src/client/main.cpp, with the calls of the operating system as the record `Os`.
--   Client/Handshake is about the connection and the answer of the server, Client/Joining about
--   a registration from the client's arguments to the session at the server.
-- - Client/Qt: what the window uses of Qt, a record of the functions with the laws that Qt
--   documents.
-- - Client/Window: src/client/mainwindow.cpp and src/client/mainwindow.h. Client/Window/State
--   has the members of `MainWindow` and its constructor, Output the helpers that show something,
--   Actions the slots for what the user does, Slots those for the signals of the thread, and
--   Events the window as a state machine, for which the signals and the actions come in any
--   order. Statuses and Reachable are about the status of the window, Agreement about this
--   status and the server's, Users about the list of users, Pages, Tabs and TabSafety about the
--   tabs, ClosedTab about a tab that the user closes, Sockets about the socket until the window is closed, and StartDm about a direct message that
--   begins with a double click. Requests makes the calls of the sender that the window asks for,
--   and Talking follows a message from one window through the server to another.
--
-- How state and effects are modelled: a function of the code that changes the server is a
-- function from states to states. A session is shared by pointers in the code; here it is the
-- entry of `sessions`, and a write through a pointer is `update_session`. The calls of
-- `send_message` and of `close` are logged in the state in the order in which they are made.
-- Output to the terminal is left out. The clock is an argument: the reading that a handler or a
-- round of the watchdog makes. The window is a record that its slots change: a property of a
-- widget is a field, a combo box or the tabs are states of Qt, and the texts appended to a page,
-- the dialogs and the calls of the sender are logged. `blockSignals` is a change of the combo
-- box without its slot.
--
-- Bounds and fuel: numbers of the code that are unsigned keep their wrap-around where a value
-- can reach it (`wire_length`). A status is the 32-bit pattern of the enum. `read_loop` and
-- `write_loop` take as many rounds as there are bytes, since each round transfers one at least.
-- `read_messages` takes fuel for the messages of a connection; one round more than there are
-- bytes to come is enough, since a message takes five at least. What `atoi` gives for a number
-- that an `int` does not hold is a parameter, since C leaves it open; a port is taken modulo 2 ^
-- 16.
--
-- What is not modelled: the bytes of two frames that are written to one socket at once, since a
-- send is one step; the options of sockets; that `shutdown` ends a blocked call is an event,
-- `hangup` or `lose`, or the result of `recv_message` in `destroy`; the signal handler of
-- src/server/main.cpp, which calls `stop`; of the client (src/client), the layout, the style
-- sheet and the scrolling of the window, the titles of dialogs and the event loop of Qt. the placeholder of the combo box of addressees, so that which item is current after the first was added is left open. Mutexes do not block in Server/Threads: a critical section and a send are one step each, which is always possible. So a thread that waits for `sessions_mutex_` or `send_mutex`, one that takes a mutex it already holds, and a `send` that blocks are not modelled, and nothing here says that the program is free of deadlock. The pointer to a session that a direct message keeps behind the lock (`Pointer`) is the entry of its descriptor, as long as that was not closed again: `remove_session` clears `alive` when it takes a session out of the registry, so `is_alive` reads the entry. The status that GetUserInfo reads behind the lock is an argument of its step, since the session may have left the registry.
pub mod Prelude
pub mod Wire
pub mod Protocol
pub mod Messages
pub mod Server
pub mod Client
