-- ===== src/Client.antt =====
-- TCPS/Client/TCPSC.cpp: the client of the relay server, which captures and plays sound and shows
-- both to a visualizer on the same machine.
pub mod Event
pub mod Connect
pub mod Capture
pub mod Playback
pub mod Main
pub mod Threads
mod Examples
