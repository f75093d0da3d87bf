-- ===== src/Lib.antt =====
-- The VEDA RTSP server: a verification library of its RTSP, RTP and media code.
--
-- A client speaks RTSP over TCP with a session; PLAY subscribes the session's RTP streamer at the
-- media hub, which reads H.264 NAL units from one source and sends each to every streamer over UDP.
--
-- Which file models which part (a definition has the name of the function it models):
-- - Base: texts as lists of bytes, the searches of std::string, bits and widths of machine
--   integers, std::stoi and the printing of numbers.
-- - Rtp.Packetizer: src/rtp/packetizer.cpp. Rtp.H264Fua: src/rtp/h264_fua.cpp.
--   Rtp.Streamer: src/rtp/streamer.cpp, its members as a record.
-- - Base64: src/util/base64.cpp. Sdp: src/sdp/builder.cpp.
-- - Rtsp.Parser: src/rtsp/parser.cpp. Rtsp.Response: src/rtsp/response.cpp.
-- - Rtsp.Session.Transport: the helpers at the top of src/rtsp/session.cpp; Rtsp.Session.Handlers:
--   its state, `handle` and the handlers; Rtsp.Session.Feed: `feed`. The calls that leave a session
--   (responses, the UDP connect, the hub) are a list of actions; their results are arguments.
-- - Media.AnnexB: src/media/annexb_reader.cpp, the file as the chunks that fread gives.
--   Media.Hub: src/media/hub.cpp, each critical section as one function; Media.Hub.Pump: its
--   thread, on any source. Media.Hub.Threads: the same file as two threads, the server's and the
--   pump's, one access to what they share at a time (the lock, `running_`, the subscribers and the
--   thread object), who is subscribed and not what is sent; Media.Hub.Threads.Refines compares it
--   with Media.Hub. Media.NalSource: src/media/nal_source.hpp as a record of operations and laws,
--   which Media.FileSource (src/media/file_source.cpp) and Media.CameraSource
--   (src/camera/source.cpp) fill.
-- - Net.Tcp, Net.Udp: src/net/tcp_socket.cpp and udp_socket.cpp; what the system's calls answer is
--   an argument.
-- - Rtsp.Server: src/rtsp/server.cpp, one event of epoll on the table of clients and the hub, and
--   the shutdown; Rtsp.Server.Loop: `run` around it. Rtsp.Server.Runs: the server's events and the
--   pump thread as a step relation; Rtsp.Server.Room: the room of clients, the abstract view.
--   Rtsp.Server.Watches puts the session, the hub and the streamers together, from the bytes of a
--   PLAY to the packets of its client; Rtsp.Server.Thrown an exception of the parser, from the
--   bytes of one client to the end of `run`.
-- - Cli: src/main.cpp, the options and `main`.
-- - What a client makes of the output, independent of the code: Rtp.Streamer.Receive for packets,
--   Rtsp.Response.Cseq, Rtsp.Response.Fields and Rtsp.Response.Frame for responses, Sdp.Sprop for
--   session descriptions.
-- - Tests: the theorems at concrete inputs.
--
-- Bounds and fuel: `fragment_loop` has the length of the payload as fuel, `header_loop` the length
-- of the text, `feed_loop` the length of the buffer and one: each round takes a byte at least, with
-- the exception of the fragments of an MTU of 2. `prescan` has kMaxNals; the client of
-- Rtsp.Response.Frame reads up to 64 header lines, and a response has five at most. Machine
-- integers keep their wrap-around. A pointer with its length is a list, the null pointer the empty
-- one.
-- `client_rtp_port + 1` is undefined in C++ at the largest int and is 2^31 here.
--
-- `run_loop` goes by the list of its rounds; `looped`, `play` and `pump` by the number of
-- calls.
--
-- Parameters: `scan`, the order in which an unordered_map is walked; `sends`, which calls of a
-- socket's send succeed; `Answers`, the random draw and what the socket and the hub answer to a
-- session. A streamer is known to sessions and to the hub by a number, its identity; `made` is the
-- streamer of an identity as its session has connected it. IsAnswered: the answers to a session's
-- `subscribe` are the hub's, and a new streamer is a new object.
--
-- Not modelled: logging, the number of bytes that one call of read may give, the
-- time that a file source sleeps, the signal that clears g_running (a round says what it is), and
-- the members that only return a field. A declaration of a header is modelled where its function
-- is defined. In Media.Hub and Rtsp.Server.Runs the critical sections of the hub
-- are steps that are not cut: the end of the source has no state of its own, and a subscribe that
-- comes between it and `running_ = false` is a subscribe in front of the step that ends the pump.
-- Media.Hub.Threads cuts them, and has the calls of one server's thread one after the other.
pub mod Base
pub mod Base64
pub mod Cli
pub mod Media
pub mod Net
pub mod Rtp
pub mod Rtsp
pub mod Sdp
pub mod Tests
