-- ===== src/Measure.antt =====
-- TCPMeasure/Basic: a client that sends time-stamped blocks, and the server that sends the times
-- back.
pub mod Echo
pub mod Figures
pub mod Connect
pub mod Audio
pub mod Server
mod Examples
