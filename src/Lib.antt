-- ===== src/Lib.antt =====
-- Models and proofs for the streaming programs of this repository, which send sound and video
-- between machines. The programs are separate; each part below is one of them.
--
-- - OnlineAv: Online_AV/Online_AV.cpp, a conference of peers over one UDP socket. OnlineAv/Net has
--   `sockaddr_in` and the sending loop that the threads share; OnlineAv/Fragment is `struct
--   Video_Fragment` with its image in memory, which is what travels; OnlineAv/VideoSend is
--   `VideoRecandSend` and OnlineAv/VideoPlay is `VideoPlayback`; OnlineAv/Peers is `sendHELLO` and
--   `LookForPeers`; OnlineAv/Audio is `struct Audio_Packet`, `AudioRecAndSend` and `AudioPlayback`;
--   OnlineAv/Conference puts discovery, sender and receiver together, and its child Video a whole
--   video with the datagrams that get lost; OnlineAv/Setup is `ALSAset` and `main`;
--   OnlineAv/Sharing lets the three receiving threads share their socket, and OnlineAv/Meeting the
--   threads that find peers and send share the list of peers, as a step relation.
-- - Relay: TCPS/Server/TCPS.cpp, which relays what a client sends to all others. Relay/Handler is
--   `handle_c` and `sigchld_handler`; Relay/System is the accepting loop of `main` with its
--   threads, as a step relation, with its children Room for what the server promises, Roster for the
--   work that it has left and Drain for how it comes to rest; Relay/Startup is `main` before that
--   loop.
-- - Client: TCPS/Client/TCPSC.cpp. Client/Connect is `connect_server` and the loops that connect to
--   the visualizer; Client/Capture is `audio_cap`, Client/Playback is `play_audio`, Client/Main is
--   `main`, and Client/Threads its two threads side by side, as a step relation.
--   Conversation puts two clients and the server together.
-- - Measure: TCPMeasure. Measure/Echo is `send_data_with_metrics` of Basic/ClientBasicTCPM.cpp and
--   `handle_client` of Basic/MeasureTCP.cpp, Measure/Figures the figures that they print (its child
--   Exact says what they should be);
--   Measure/Connect is `connect_to_server` and `main` of the client; Measure/Audio is
--   Audio/TCPLBCl.cpp; Measure/Server is Audio/TCPLBSr.cpp and `main` of Basic/MeasureTCP.cpp.
-- - Attempt: TCPattempt. Attempt/Client is TCP_client/TCPclient2.cpp, Attempt/Server is
--   TCP_server/TCPserver2.cpp, whose functions are those of the Relay.
-- - Tracks: Online_Tracks. Tracks/Stream is `audio_cap` and `play_audio` of UDPconn1.cpp,
--   Tracks/Start its `main`, Tracks/Waiting the wait on the condition variable with `init_sig` as a
--   step relation; Tracks/Conn2 is UDPconn2.cpp; Tracks/Call puts the two programs together.
-- - IpCheck: IPcheck/IPcheckstream.cpp. IpCheck/Peers is `listenForPeers` with its set of
--   addresses, IpCheck/Sound is `captureAndSend` and `receiveAndPlay`, IpCheck/Setup is `main`.
-- - UdpAudio: UDPaudio/UDPaudio.cpp, its sender, its receiver and `main`.
-- - RtAudio: rtaudio_stream, its sender and its receiver. WebRtc: WebRTC/Peers, with
--   WebRtc/Signaling for signaling/SignalingClient.cpp (its child Threads has the two threads of
--   `connect`) and WebRtc/Peer for src/main.cpp. OpenCvTest: OpenCVTest/OpenCVTest.cpp.
-- - Base: shared names, lists measured by native numbers, signed results, bytes, association lists.
--
-- State is a record, and an operation returns the new record and what it does to the world as a
-- list of events. What the sockets, ALSA, OpenCV and the clock answer are inputs: a loop `while
-- (running)` takes the list of what its rounds meet, and the list ends where the flag is cleared by
-- another thread. So the loops need no fuel. Loops with a counter recur on the rounds left.
-- Undefined behaviour is `none`. Unsigned integers are numbers with the wrap-around written out; a
-- signed result is a number of either sign. Bytes are numbers. `std::sort` and OpenCV's decoder are
-- parameters; the sort is assumed to return an ordered permutation, which an insertion sort in
-- OnlineAv/Examples does. Layouts of structs are those of x86-64. A frame is assumed shorter than 2
-- ^ 32 bytes.
--
-- A time point of `steady_clock` is a number of nanoseconds; where a theorem needs that the clock
-- does not go back, it says so. When Boost's `io_context::run` may return is a parameter, with
-- its documented behaviour as a hypothesis.
--
-- Not modelled: calls that never return where the model makes a call part of a step (in the Relay
-- a `send` that blocks while `client_m` is held), the rounding of floating-point quotients, what
-- is printed beyond the fixed text of a message (but for the figures of Measure/Figures), the
-- setting of device parameters, memory effects of data races, the second copy of the signaling
-- client, the Python and JavaScript programs, generated and third-party files.

pub mod Base
pub mod OnlineAv
pub mod Relay
pub mod Client
pub mod Measure
pub mod Attempt
pub mod Tracks
pub mod IpCheck
pub mod UdpAudio
pub mod RtAudio
pub mod Conversation
pub mod WebRtc
pub mod OpenCvTest
