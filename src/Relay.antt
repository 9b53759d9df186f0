-- ===== src/Relay.antt =====
-- TCPS/Server/TCPS.cpp: the server that relays what a client sends to all other clients. (The file
-- TCPattempt/TCP_server/TCPserver2.cpp is the same program.)
pub mod Handler
pub mod System
pub mod Startup
mod Examples
