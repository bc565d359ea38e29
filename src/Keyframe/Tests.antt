-- ===== src/Keyframe/Tests.antt =====
-- Runs of the key frame detectors of src/room/ptt_rewriter.rs.
use oxlens_sfu_server.Prelude.{ℕ, ◌≡◌, refl, true, false, List, [], ◌∷◌, ◌++◌}
use oxlens_sfu_server.Keyframe.{rtp_payload_offset, is_vp8_keyframe}

-- An RTP header with a header extension of one word.
abbrev head : List ℕ
head = 0x90 ∷ 102 ∷ 0 ∷ 1 ∷ 0 ∷ 0 ∷ 0 ∷ 0 ∷ 0 ∷ 0 ∷ 0 ∷ 9 ∷ 0xbe ∷ 0xde ∷ 0 ∷ 1 ∷ 0 ∷ 0 ∷ 0 ∷ 0 ∷ []

-- A descriptor with a picture number of two bytes.
vp8_key : is_vp8_keyframe (head ++ (0x90 ∷ 0x80 ∷ 0x81 ∷ 0x01 ∷ 0x10 ∷ [])) ≡ true
unfolding rtp_payload_offset is_vp8_keyframe
vp8_key = refl

vp8_delta : is_vp8_keyframe (head ++ (0x10 ∷ 0x11 ∷ [])) ≡ false
unfolding rtp_payload_offset is_vp8_keyframe
vp8_delta = refl
