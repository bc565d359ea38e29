-- ===== src/Keyframe.antt =====
-- src/room/ptt_rewriter.rs: whether a packet starts a key frame (`rtp_payload_offset`,
-- `is_vp8_keyframe`, `is_h264_keyframe`). The walk over the units of an aggregation packet runs on
-- fuel; each takes two bytes at least, so the length of the packet is enough.
pub mod Units
mod Tests
use oxlens_sfu_server.Prelude.{
  ℕ, zero, suc, ◌+◌, ◌*◌, ◌/◌, ◌%◌, ◌<◌, ◌≤◌, ◌≡◌, Bool, true, false, not, ◌&&◌, ◌||◌, Option, none,
  some, List, arith, ltb, leb, ◌==◌, if◌then◌else◌, length, byte_at, read16,
}

-- Behind the fixed header and the CSRCs.
abbrev pub ext_offset : List ℕ → ℕ
ext_offset buf = 12 + byte_at buf 0 % 16 * 4

abbrev pub has_ext : List ℕ → Bool
has_ext buf = not (byte_at buf 0 / 16 % 2 == 0)

abbrev pub in_packet : List ℕ → ℕ → Option ℕ
in_packet buf offset = if leb (length buf) offset then none else some offset

unfoldable pub rtp_payload_offset : List ℕ → Option ℕ
rtp_payload_offset buf =
    if ltb (length buf) 12
    then none
    else if not (has_ext buf)
    then in_packet buf (ext_offset buf)
    else if ltb (length buf) (ext_offset buf + 4)
    then none
    else in_packet buf (ext_offset buf + (4 + read16 buf (ext_offset buf + 2) * 4))

-- Bit `2 ^ k` of the byte at an offset, by its weight.
abbrev pub flag : List ℕ → (offset weight : ℕ) → Bool
flag buf offset weight = not (byte_at buf offset / weight % 2 == 0)

-- `frame_byte & 0x01 == 0`, if the packet reaches so far.
abbrev pub is_key_frame_at : List ℕ → ℕ → Bool
is_key_frame_at buf offset = if leb (length buf) offset then false else byte_at buf offset % 2 == 0

-- Past TL0PICIDX (L) and TID or KEYIDX (T, K), from the extension byte at `ext`.
abbrev pub past_options : List ℕ → (ext offset : ℕ) → ℕ
past_options buf ext offset =
    offset
    + (if flag buf ext 64 then 1 else 0)
    + (if flag buf ext 32 || flag buf ext 16 then 1 else 0)

-- The payload descriptor's extension, whose byte is at `ext`.
abbrev pub vp8_extended : List ℕ → ℕ → Bool
vp8_extended buf ext =
    if leb (length buf) ext
    then false
    else if not (flag buf ext 128)
    then is_key_frame_at buf (past_options buf ext (ext + 1))
    else if leb (length buf) (ext + 1)
    then false
    else is_key_frame_at buf
        (past_options buf ext (ext + 1 + (if flag buf (ext + 1) 128 then 2 else 1)))

unfoldable pub is_vp8_keyframe : List ℕ → Bool
is_vp8_keyframe buf = elim (rtp_payload_offset buf) [
  | none ↦ false
  | some offset ↦
      if not (flag buf offset 16)
      then false
      else if flag buf offset 128
      then vp8_extended buf (offset + 1)
      else is_key_frame_at buf (offset + 1)
]

-- SPS or IDR.
abbrev pub is_key_unit : ℕ → Bool
is_key_unit nal_type = nal_type == 7 || nal_type == 5

-- The units of a STAP-A packet from `pos` on.
unfoldable pub has_key_unit : ℕ → List ℕ → ℕ → Bool
has_key_unit zero buf pos = false
has_key_unit (suc fuel) buf pos =
    let nalu_size = read16 buf pos in
    let rest = has_key_unit fuel buf (pos + 2 + nalu_size) in
    if leb (length buf) (pos + 2)
    then false
    else if is_key_unit (byte_at buf (pos + 2) % 32)
    then true
    else if ltb (length buf) (pos + 2 + nalu_size)
    then false
    else rest

-- The match on the type of the unit that the payload at `offset` starts with.
abbrev pub h264_at : List ℕ → Option ℕ → Bool
h264_at buf none = false
h264_at buf (some offset) =
    let nal_type = byte_at buf offset % 32 in
    if is_key_unit nal_type
    then true
    else if nal_type == 24
    then has_key_unit (length buf) buf (offset + 1)
    else if nal_type == 28
    then if leb (length buf) (offset + 1)
      then false
      else flag buf (offset + 1) 128 && is_key_unit (byte_at buf (offset + 1) % 32)
    else false

unfoldable pub is_h264_keyframe : List ℕ → Bool
is_h264_keyframe buf = h264_at buf (rtp_payload_offset buf)
