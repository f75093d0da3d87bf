-- ===== src/Rtsp.antt =====
-- src/rtsp: the request parser, the response builder and the session state machine.
pub mod Parser
pub mod Response
pub mod Session
pub mod Server
