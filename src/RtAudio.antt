-- ===== src/RtAudio.antt =====
-- rtaudio_stream: one program sends captured sound over UDP, another plays it.
pub mod Sender
pub mod Receiver
pub mod Heard
mod Examples
