-- ===== src/Rtcp/Mbcp.antt =====
-- src/transport/udp/rtcp.rs: the floor control messages in RTCP APP packets (`parse_mbcp_app`,
-- `build_mbcp_app`). Text is the list of its UTF-8 bytes.
pub mod Utf8
pub mod Laws
use oxlens_sfu_server.Prelude.{
  ℕ, ◌+◌, ◌-◌, ◌*◌, ◌/◌, ◌%◌, Bool, true, false, not, ◌&&◌, Option, none, some, List, [], ◌∷◌, ◌++◌,
  ltb, ◌==◌, if◌then◌else◌, length, drop, replicate, byte_at, read32, be16, be32,
}
use Utf8.{is_utf8}

-- `struct MbcpMessage`
pub record MbcpMessage : Type 0 where
  pub subtype : ℕ
  pub ssrc : ℕ
  pub text : Option (List ℕ)

-- `raw.iter().position(|&b| b == 0).map(|pos| &raw[..pos]).unwrap_or(raw)`
unfoldable pub until_zero : List ℕ → List ℕ
until_zero [] = []
until_zero (b ∷ bs) = let rest = until_zero bs in if b == 0 then [] else b ∷ rest

abbrev pub decode_text : List ℕ → Option (List ℕ)
decode_text [] = none
decode_text (b ∷ bs) = if is_utf8 (b ∷ bs) then some (b ∷ bs) else none

-- The bytes 8 to 11 are "MBCP".
abbrev pub has_name : List ℕ → Bool
has_name buf =
    byte_at buf 8 == b'M'
    && (byte_at buf 9 == b'B' && (byte_at buf 10 == b'C' && byte_at buf 11 == b'P'))

unfoldable pub parse_mbcp_app : List ℕ → Option MbcpMessage
parse_mbcp_app buf =
    if ltb (length buf) 12
    then none
    else if not (byte_at buf 1 == 204)
    then none
    else if not (has_name buf)
    then none
    else some (record {
      subtype = byte_at buf 0 % 32;
      ssrc = read32 buf 4;
      text = if ltb 12 (length buf) then decode_text (until_zero (drop 12 buf)) else none;
    })

-- `data.map(|s| s.as_bytes()).unwrap_or(&[])`
abbrev pub bytes_of : Option (List ℕ) → List ℕ
bytes_of none = []
bytes_of (some bs) = bs

-- `(len + 3) & !3`
abbrev pub padded : ℕ → ℕ
padded n = (n + 3) / 4 * 4

-- The zeros that the buffer is made of stay behind the text.
unfoldable pub build_mbcp_app : ℕ → ℕ → Option (List ℕ) → List ℕ
build_mbcp_app subtype ssrc text =
    let bs = bytes_of text in
    let total = 12 + padded (length bs) in
    (128 + subtype % 32)
    ∷ 204
    ∷ (be16 (total / 4 - 1)
        ++ (be32 ssrc
            ++ (b'M' ∷ b'B' ∷ b'C' ∷ b'P' ∷ (bs ++ replicate (padded (length bs) - length bs) 0))))
