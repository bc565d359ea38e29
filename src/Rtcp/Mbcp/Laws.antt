-- ===== src/Rtcp/Mbcp/Laws.antt =====
-- src/transport/udp/rtcp.rs: what `build_mbcp_app` builds, `parse_mbcp_app` reads back.
use oxlens_sfu_server.Prelude.{
  ℕ, zero, suc, ◌+◌, ◌-◌, ◌*◌, ◌<◌, ◌≡◌, refl, ◌≢◌, true, none, some, List, [], ◌∷◌, ◌++◌, arith,
  All, length, length-append, length-replicate, replicate, read16, u32_mod,
}
use oxlens_sfu_server.Rtcp.Mbcp.Utf8.{is_utf8}
use oxlens_sfu_server.Rtcp.Mbcp.{until_zero, decode_text, parse_mbcp_app, padded, build_mbcp_app}

-- A text that survives: some bytes, none of them 0, and well-formed UTF-8.
abbrev pub IsText : List ℕ → Type 0
IsText bs = (0 < length bs) × All (λ b. b ≢ 0) bs × (is_utf8 bs ≡ true)

until_zero-padding : (n : ℕ) → until_zero (replicate n 0) ≡ []
unfolding until_zero
until_zero-padding zero = refl
until_zero-padding (suc n) = refl

until_zero-append :
    (bs : List ℕ) (n : ℕ) → All (λ b. b ≢ 0) bs → until_zero (bs ++ replicate n 0) ≡ bs
unfolding until_zero
until_zero-append [] n h = until_zero-padding n
until_zero-append (b ∷ bs) n h = ground (arith, until_zero-append bs n h.1)

decode_text-IsText : (bs : List ℕ) → IsText bs → decode_text bs ≡ some bs
decode_text-IsText [] h = absurd (omega (arith, h.0))
decode_text-IsText (b ∷ bs) h = rw h.2

-- A message with a text is read back: its subtype (five bits), its SSRC (32 bits) and its text (1
-- to 261999 bytes of UTF-8 without a zero). The packet's length field counts its words but one.
parse-build_mbcp_app :
    (subtype ssrc : ℕ) (bs : List ℕ)
    → subtype < 32
    → ssrc < u32_mod
    → length bs < 262000
    → IsText bs
    → let packet = build_mbcp_app subtype ssrc (some bs) in
      (parse_mbcp_app packet ≡ some (record { subtype = subtype; ssrc = ssrc; text = some bs }))
      × ((read16 packet 2 + 1) * 4 ≡ length packet)
unfolding parse_mbcp_app build_mbcp_app
parse-build_mbcp_app subtype ssrc bs hs hr small h =
    let zeros = padded (length bs) - length bs in
    let size : length (bs ++ replicate zeros 0) ≡ padded (length bs) =
      omega (arith, length-append bs (replicate zeros 0), length-replicate {A = ℕ} zeros 0) in
    (
      simp (until_zero-append bs zeros h.1, decode_text-IsText bs h, size) (ground arith),
      omega (arith, size),
    )

-- A message without a text, of a subtype of five bits and an SSRC of 32, is twelve bytes, has the
-- length field 2, and is read back.
parse-build_mbcp_app_bare :
    (subtype ssrc : ℕ)
    → subtype < 32
    → ssrc < u32_mod
    → let packet = build_mbcp_app subtype ssrc none in
      (parse_mbcp_app packet ≡ some (record { subtype = subtype; ssrc = ssrc; text = none }))
      × (length packet ≡ 12)
      × (read16 packet 2 ≡ 2)
unfolding parse_mbcp_app build_mbcp_app
parse-build_mbcp_app_bare subtype ssrc hs hr = (ground arith, refl, refl)
