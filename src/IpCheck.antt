-- ===== src/IpCheck.antt =====
-- IPcheck/IPcheckstream.cpp: discovery by broadcast with a set of addresses, and sound to all of them.
pub mod Peers
pub mod Sound
pub mod Setup
mod Examples
