-- ===== src/Rtcp/Compound.antt =====
-- src/transport/udp/rtcp.rs: the split of a compound RTCP packet into its blocks by what happens to
-- them (`split_compound_rtcp`), and the assembly of one (`assemble_compound`). The loop runs on
-- fuel; every block takes at least four bytes, so the length of the buffer is enough.
pub mod Laws
pub mod RoundTrip
use oxlens_sfu_server.Prelude.{
  ℕ, zero, suc, ◌+◌, ◌*◌, ◌%◌, Bool, ◌&&◌, ◌||◌, Option, none, some, List, [], ◌∷◌, ◌++◌, ltb, leb,
  ◌==◌, if◌then◌else◌, length, take, drop, byte_at, read16, read32,
}
use oxlens_sfu_server.Rtcp.Mbcp.{MbcpMessage, parse_mbcp_app}

-- `struct RtcpBlockRef`
pub record RtcpBlockRef : Type 0 where
  pub offset : ℕ
  pub size : ℕ
  pub media_ssrc : ℕ

pub record CompoundRtcpParsed : Type 0 where
  pub nack_blocks : List (List ℕ)
  pub relay_blocks : List RtcpBlockRef
  pub mbcp_blocks : List MbcpMessage
  pub sr_blocks : List RtcpBlockRef
  pub rr_blocks : List RtcpBlockRef

unfoldable pub no_blocks : CompoundRtcpParsed
no_blocks = record {
  nack_blocks = [];
  relay_blocks = [];
  mbcp_blocks = [];
  sr_blocks = [];
  rr_blocks = [];
}

-- `(length_words + 1) * 4` of the block at `offset`.
abbrev pub block_len : List ℕ → ℕ → ℕ
block_len buf offset = (read16 buf (offset + 2) + 1) * 4

-- Bytes 8 to 11 of the block, if the buffer reaches so far.
abbrev pub media_ssrc_at : List ℕ → ℕ → ℕ
media_ssrc_at buf offset = if leb (offset + 12) (length buf) then read32 buf (offset + 8) else 0

-- What the loop body adds to the result for the block at `offset`. The vectors grow at their end;
-- here the later blocks, `rest`, are known, and the block goes in front of them.
unfoldable pub add_block : List ℕ → ℕ → CompoundRtcpParsed → CompoundRtcpParsed
add_block buf offset rest =
    let fmt = byte_at buf offset % 32 in
    let pt = byte_at buf (offset + 1) in
    let size = block_len buf offset in
    let block : RtcpBlockRef = record {
      offset = offset;
      size = size;
      media_ssrc = media_ssrc_at buf offset;
    } in
    if pt == 205 && fmt == 1
    then record rest { nack_blocks = take size (drop offset buf) ∷ rest.nack_blocks }
    else if pt == 204
    then elim (parse_mbcp_app (take size (drop offset buf))) [
      | none ↦ rest
      | some msg ↦ record rest { mbcp_blocks = msg ∷ rest.mbcp_blocks }
    ]
    else if pt == 200
    then record rest { sr_blocks = block ∷ rest.sr_blocks }
    else if pt == 201
    then record rest { rr_blocks = block ∷ rest.rr_blocks }
    else if (pt == 206 && fmt == 1) || (pt == 206 && fmt == 15)
    then record rest { relay_blocks = block ∷ rest.relay_blocks }
    else rest

-- A header is there, and the block ends in the buffer.
abbrev pub fits : List ℕ → ℕ → Bool
fits buf offset = leb (offset + 4) (length buf) && leb (offset + block_len buf offset) (length buf)

unfoldable pub split_from : ℕ → List ℕ → ℕ → CompoundRtcpParsed
split_from zero buf offset = no_blocks
split_from (suc fuel) buf offset =
    let rest = split_from fuel buf (offset + block_len buf offset) in
    if fits buf offset then add_block buf offset rest else no_blocks

unfoldable pub split_compound_rtcp : List ℕ → CompoundRtcpParsed
split_compound_rtcp buf = split_from (length buf) buf 0

unfoldable pub assemble_compound : List (List ℕ) → List ℕ
assemble_compound [] = []
assemble_compound (b ∷ bs) = b ++ assemble_compound bs
