-- ===== src/Tracks.antt =====
-- Online_Tracks: two programs that send sound to one another over UDP. UDPconn2.cpp is UDPconn1.cpp
-- with the two ports and the two addresses exchanged.
pub mod Stream
pub mod Start
pub mod Conn2
pub mod Call
pub mod Waiting
mod Examples
