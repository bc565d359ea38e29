-- ===== src/Rtcp/Tests.antt =====
-- Runs of the parsers and builders of src/transport/udp/rtcp.rs, and the theorems at concrete
-- inputs.
use oxlens_sfu_server.Prelude.{
  ℕ, ◌≡◌, refl, false, List, [], ◌∷◌, ◌++◌, arith, drop, byte_at, read16,
}
use oxlens_sfu_server.Rtcp.Header.{parse_rtp_header, rtx_pt_for}
use oxlens_sfu_server.Rtcp.Nack.{lost_from, expand_nack}
use oxlens_sfu_server.Rtcp.Compound.{split_compound_rtcp, assemble_compound}
use oxlens_sfu_server.Rtcp.Compound.RoundTrip.{expected, split-assemble_compound}
use oxlens_sfu_server.Rtcp.Feedback.{build_pli, halve, encode_remb_bitrate}
use oxlens_sfu_server.Rtcp.Rtx.{build_rtx_packet}
use oxlens_sfu_server.Rtcp.Rtx.Laws.{build_rtx_packet_lem}

expand_wraps : expand_nack 65534 5 ≡ 65534 ∷ 65535 ∷ 1 ∷ []
unfolding expand_nack lost_from
expand_wraps = refl

-- A PLI, a sender report and a NACK.
abbrev blocks : List (List ℕ)
blocks =
    (0x81 ∷ 206 ∷ 0 ∷ 2 ∷ 0 ∷ 0 ∷ 0 ∷ 1 ∷ 0 ∷ 0 ∷ 0 ∷ 7 ∷ [])
    ∷ (0x80 ∷ 200 ∷ 0 ∷ 3 ∷ 0 ∷ 0 ∷ 0 ∷ 2 ∷ 0 ∷ 0 ∷ 0 ∷ 8 ∷ 1 ∷ 2 ∷ 3 ∷ 4 ∷ [])
    ∷ (0x81 ∷ 205 ∷ 0 ∷ 3 ∷ 0 ∷ 0 ∷ 0 ∷ 2 ∷ 0 ∷ 0 ∷ 0 ∷ 9 ∷ 0 ∷ 5 ∷ 0 ∷ 1 ∷ [])
    ∷ []

split-assemble_compound_example : split_compound_rtcp (assemble_compound blocks) ≡ expected 0 blocks
split-assemble_compound_example = split-assemble_compound blocks (
  record { long = omega arith; counted = refl },
  (
    record { long = omega arith; counted = refl },
    (record { long = omega arith; counted = refl }, tt),
  ),
)

remb_rate : encode_remb_bitrate 500000 ≡ (1, 250000)
unfolding encode_remb_bitrate halve
remb_rate = refl

pli : build_pli 7 ≡ 0x81 ∷ 206 ∷ 0 ∷ 2 ∷ 0 ∷ 0 ∷ 0 ∷ 0 ∷ 0 ∷ 0 ∷ 0 ∷ 7 ∷ []
unfolding build_pli
pli = refl

-- A VP8 header with the extension bit, and behind it the header extension and a payload.
abbrev head : List ℕ
head = 0x90 ∷ 96 ∷ 1 ∷ 44 ∷ 0 ∷ 0 ∷ 0 ∷ 50 ∷ 0 ∷ 0 ∷ 0 ∷ 9 ∷ []

abbrev body : List ℕ
body = 0xbe ∷ 0xde ∷ 0 ∷ 1 ∷ 0x10 ∷ 0xff ∷ 0 ∷ 0 ∷ 0xaa ∷ []

build_rtx_packet_lem_example :
    let rtx = build_rtx_packet (head ++ body) 42 7 in
    (parse_rtp_header rtx
      ≡ record { pt = 97; marker = false; seq = 7; timestamp = 50; ssrc = 42; header_len = 12 })
    × (byte_at rtx 0 ≡ 0x90)
    × (read16 rtx 12 ≡ 300)
    × (drop 14 rtx ≡ body)
unfolding rtx_pt_for
build_rtx_packet_lem_example =
    build_rtx_packet_lem head body 42 7
      (record { long = omega arith; whole = refl; bytes = omega arith }) (omega arith) (omega arith)
