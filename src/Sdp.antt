-- ===== src/Sdp.antt =====
-- src/sdp/builder.hpp and builder.cpp: the body of the DESCRIBE response.
pub mod Sprop
use veda_rtsp.Base.{[], ◌∷◌, ◌++◌, Bytes, codes, ℤ, print_int}

pub record VideoStreamInfo : Type 0 where
  pub payload_type : ℤ
  pub clock_rate : ℤ
  pub sprop_parameter_sets : Bytes

-- The optional end of the fmtp line.
unfoldable pub sprop_part : Bytes → Bytes
sprop_part [] = []
sprop_part (c ∷ cs) = codes ";sprop-parameter-sets=" ++ (c ∷ cs)

unfoldable pub build : VideoStreamInfo → Bytes
unfolding sprop_part
build info =
    codes "v=0\r\n"
    ++ (codes "o=- 0 0 IN IP4 0.0.0.0\r\n"
        ++ (codes "s=VEDA RTSP Stream\r\n"
            ++ (codes "c=IN IP4 0.0.0.0\r\n"
                ++ (codes "t=0 0\r\n"
                    ++ (codes "a=control:*\r\n"
                        ++ (codes "m=video 0 RTP/AVP "
                            ++ (print_int info.payload_type
                                ++ (codes "\r\na=rtpmap:"
                                    ++ (print_int info.payload_type
                                        ++ (codes " H264/"
                                            ++ (print_int info.clock_rate
                                                ++ (codes "\r\na=fmtp:"
                                                    ++ (print_int info.payload_type
                                                        ++ (codes " packetization-mode=1"
                                                            ++ (sprop_part info.sprop_parameter_sets
                                                            ++ codes
                                                            "\r\na=control:track0\r\n")))))))))))))))
