-- ===== src/Rtcp/Feedback.antt =====
-- src/transport/udp/rtcp.rs: the feedback that the server builds itself: PLI and REMB.
pub mod Laws
use oxlens_sfu_server.Prelude.{
  ℕ, zero, suc, ◌+◌, ◌*◌, ◌/◌, ◌%◌, ◌^◌, List, [], ◌∷◌, ◌++◌, ltb, if◌then◌else◌, be32,
}

unfoldable pub build_pli : ℕ → List ℕ
build_pli media_ssrc = 0x81 ∷ 206 ∷ 0 ∷ 2 ∷ 0 ∷ 0 ∷ 0 ∷ 0 ∷ be32 media_ssrc

-- The loop of `encode_remb_bitrate` on fuel: each round halves a `u64`, so 64 rounds are enough.
-- The answer is the exponent and the mantissa.
unfoldable pub halve : ℕ → (exp mantissa : ℕ) → ℕ × ℕ
halve zero exp mantissa = (exp, mantissa)
halve (suc fuel) exp mantissa =
    let rest = halve fuel (exp + 1) (mantissa / 2) in
    if ltb 0x3ffff mantissa then rest else (exp, mantissa)

unfoldable pub encode_remb_bitrate : ℕ → ℕ × ℕ
encode_remb_bitrate bps = halve 64 0 bps

unfoldable pub build_remb : ℕ → ℕ → List ℕ
build_remb bps media_ssrc =
    let (exp, mantissa) = encode_remb_bitrate bps in
    0x8f
    ∷ 206
    ∷ 0
    ∷ 5
    ∷ 0
    ∷ 0
    ∷ 0
    ∷ 0
    ∷ 0
    ∷ 0
    ∷ 0
    ∷ 0
    ∷ b'R'
    ∷ b'E'
    ∷ b'M'
    ∷ b'B'
    ∷ 1
    ∷ (exp * 4 % 256 + mantissa / 65536 % 4)
    ∷ mantissa / 256 % 256
    ∷ mantissa % 256
    ∷ be32 media_ssrc
