-- ===== src/Rtsp/Session.antt =====
-- src/rtsp/session.hpp and session.cpp: the state machine of one client. A method returns the new
-- session with the actions it has taken, in order; what the socket, the hub and the random
-- generator answer is an argument.
pub mod Transport
pub mod Handlers
pub mod Feed
