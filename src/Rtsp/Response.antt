-- ===== src/Rtsp/Response.antt =====
-- src/rtsp/response.hpp and response.cpp: the text of each response.
pub mod Cseq
pub mod Frame
pub mod Framed
pub mod Fields
use veda_rtsp.Base.{◌++◌, Bytes, codes, length, ℤ, print_int, print_nat}

-- `<< "CSeq: " << cseq << "\r\n"`, and what follows.
unfoldable pub cseq_line : ℤ → Bytes → Bytes
cseq_line cseq rest = codes "CSeq: " ++ (print_int cseq ++ (codes "\r\n" ++ rest))

-- `<< "Session: " << session_id << "\r\n"`, and what follows.
unfoldable pub session_line : Bytes → Bytes → Bytes
session_line session_id rest = codes "Session: " ++ (session_id ++ (codes "\r\n" ++ rest))

unfoldable pub ok : ℤ → Bytes
unfolding cseq_line
ok cseq = codes "RTSP/1.0 200 OK\r\n" ++ cseq_line cseq (codes "\r\n")

-- The overload with a session.
unfoldable pub ok_session : ℤ → Bytes → Bytes
unfolding cseq_line session_line
ok_session cseq session_id =
    codes "RTSP/1.0 200 OK\r\n" ++ cseq_line cseq (session_line session_id (codes "\r\n"))

unfoldable pub options : ℤ → Bytes
unfolding cseq_line
options cseq =
    codes "RTSP/1.0 200 OK\r\n"
    ++ cseq_line cseq
        (codes "Public: OPTIONS, DESCRIBE, SETUP, PLAY, PAUSE, TEARDOWN, GET_PARAMETER\r\n\r\n")

unfoldable pub describe : ℤ → Bytes → Bytes → Bytes
unfolding cseq_line
describe cseq sdp content_base =
    codes "RTSP/1.0 200 OK\r\n"
    ++ cseq_line cseq (
        codes "Content-Type: application/sdp\r\nContent-Base: "
        ++ (content_base
            ++ (codes "\r\nContent-Length: "
                ++ (print_nat (length sdp) ++ (codes "\r\n\r\n" ++ sdp)))))

-- `X-Y` of a Transport header.
unfoldable pub port_pair : ℤ → ℤ → Bytes → Bytes
port_pair a b rest = print_int a ++ (codes "-" ++ (print_int b ++ rest))

unfoldable pub setup : ℤ → Bytes → ℤ → ℤ → ℤ → ℤ → Bytes
unfolding cseq_line session_line port_pair
setup cseq session_id client_rtp_port client_rtcp_port server_rtp_port server_rtcp_port =
    codes "RTSP/1.0 200 OK\r\n"
    ++ cseq_line cseq (
        session_line session_id (
          codes "Transport: RTP/AVP;unicast;client_port="
          ++ port_pair client_rtp_port client_rtcp_port (
              codes ";server_port="
              ++ port_pair server_rtp_port server_rtcp_port (codes "\r\n\r\n"))))

unfoldable pub play : ℤ → Bytes → Bytes
unfolding cseq_line session_line
play cseq session_id =
    codes "RTSP/1.0 200 OK\r\n"
    ++ cseq_line cseq (session_line session_id (codes "Range: npt=0.000-\r\n\r\n"))

unfoldable pub teardown : ℤ → Bytes → Bytes
unfolding cseq_line session_line
teardown cseq session_id =
    codes "RTSP/1.0 200 OK\r\n" ++ cseq_line cseq (session_line session_id (codes "\r\n"))

unfoldable pub error : ℤ → ℤ → Bytes → Bytes
unfolding cseq_line
error cseq status_code reason =
    codes "RTSP/1.0 "
    ++ (print_int status_code
        ++ (codes " " ++ (reason ++ (codes "\r\n" ++ cseq_line cseq (codes "\r\n")))))
