-- ===== src/Attempt.antt =====
-- TCPattempt: an earlier pair of client and server. The client finds its server by `getaddrinfo`
-- and tries each address once; the server is the program of TCPS/Server.
pub mod Client
pub mod Server
mod Examples
