-- ===== src/WebRtc.antt =====
-- WebRTC/Peers: a client that signals over a WebSocket. CMakeLists.txt builds the copy of the client
-- in the folder signaling; the folder signal has the same two files.
pub mod Signaling
pub mod Peer
mod Examples
