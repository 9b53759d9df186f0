-- ===== src/OnlineAv.antt =====
-- Online_AV/Online_AV.cpp: the audio and video conference over one UDP socket.
pub mod Net
pub mod Fragment
pub mod VideoSend
pub mod VideoPlay
pub mod Peers
pub mod Audio
pub mod Conference
pub mod Setup
pub mod Sharing
pub mod Meeting
mod Examples
