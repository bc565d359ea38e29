-- ===== src/Rtcp/Header.antt =====
-- src/transport/udp/rtcp.rs: `parse_rtp_header`; and the payload types of src/config.rs.
use oxlens_sfu_server.Prelude.{
  ℕ, ◌+◌, ◌*◌, ◌/◌, ◌%◌, Bool, false, ◌||◌, List, ltb, ◌==◌, if◌then◌else◌, length, byte_at, read16,
  read32,
}

abbrev pub vp8_payload_type : ℕ
vp8_payload_type = 96

abbrev pub vp8_rtx_payload_type : ℕ
vp8_rtx_payload_type = 97

abbrev pub h264_payload_type : ℕ
h264_payload_type = 102

abbrev pub h264_rtx_payload_type : ℕ
h264_rtx_payload_type = 103

abbrev pub opus_payload_type : ℕ
opus_payload_type = 111

unfoldable pub is_audio_pt : ℕ → Bool
is_audio_pt pt = pt == opus_payload_type

unfoldable pub is_video_pt : ℕ → Bool
is_video_pt pt = pt == vp8_payload_type || pt == h264_payload_type

unfoldable pub is_rtx_pt : ℕ → Bool
is_rtx_pt pt = pt == vp8_rtx_payload_type || pt == h264_rtx_payload_type

unfoldable pub rtx_pt_for : ℕ → ℕ
rtx_pt_for pt = if pt == h264_payload_type then h264_rtx_payload_type else vp8_rtx_payload_type

pub record RtpHeader : Type 0 where
  pub pt : ℕ
  pub marker : Bool
  pub seq : ℕ
  pub timestamp : ℕ
  pub ssrc : ℕ
  pub header_len : ℕ

-- `12 + cc * 4`, with the CSRC count in the low four bits of the first byte.
abbrev pub fixed_len : List ℕ → ℕ
fixed_len buf = 12 + byte_at buf 0 % 16 * 4

unfoldable pub parse_rtp_header : List ℕ → RtpHeader
parse_rtp_header buf =
    if ltb (length buf) 12
    then record { pt = 0; marker = false; seq = 0; timestamp = 0; ssrc = 0; header_len = 0 }
    else record {
      pt = byte_at buf 1 % 128;
      marker = byte_at buf 1 / 128 % 2 == 1;
      seq = read16 buf 2;
      timestamp = read32 buf 4;
      ssrc = read32 buf 8;
      header_len = fixed_len buf;
    }
