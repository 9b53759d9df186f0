-- ===== src/UdpAudio.antt =====
-- UDPaudio/UDPaudio.cpp: sound over UDP with the time before it, by PulseAudio and asio.
pub mod Stream
pub mod Main
mod Examples
