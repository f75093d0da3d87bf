-- ===== src/Tests.antt =====
-- The theorems at concrete inputs.
mod Clients
mod Watching
mod Streaming
mod Parsing
mod Sessions
mod Servers
mod Sources
mod Hubs
