-- ===== src/Rtcp/Rtx.antt =====
-- src/transport/udp/rtcp.rs: the retransmission of a packet on the RTX stream (`build_rtx_packet`).
pub mod Laws
use oxlens_sfu_server.Prelude.{
  ℕ, ◌+◌, ◌*◌, ◌%◌, List, [], ◌∷◌, ◌++◌, ltb, if◌then◌else◌, length, set, take, drop, byte_at,
  read16, write16, write32, be16,
}
use oxlens_sfu_server.Rtcp.Header.{fixed_len, rtx_pt_for}

-- The copied header with payload type, sequence number and SSRC replaced, in the source's order.
abbrev pub rtx_header : List ℕ → ℕ → ℕ → List ℕ
rtx_header head ssrc seq =
    write32 (write16 (set head 1 (rtx_pt_for (byte_at head 1 % 128))) 2 seq) 8 ssrc

unfoldable pub build_rtx_packet : List ℕ → ℕ → ℕ → List ℕ
build_rtx_packet original rtx_ssrc rtx_seq =
    if ltb (length original) 12
    then []
    else if ltb (length original) (fixed_len original)
    then []
    else rtx_header (take (fixed_len original) original) rtx_ssrc rtx_seq
      ++ (be16 (read16 original 2) ++ drop (fixed_len original) original)
