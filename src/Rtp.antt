-- ===== src/Rtp.antt =====
-- src/rtp: the RTP header, the FU-A fragmentation of H.264 NALs and the streamer that joins them.
pub mod Packetizer
pub mod H264Fua
pub mod Streamer
