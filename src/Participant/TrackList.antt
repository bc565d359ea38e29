-- ===== src/Participant/TrackList.antt =====
-- src/room/participant.rs: the tracks that a participant publishes, and the searches in their list.
use oxlens_sfu_server.Prelude.{
  ℕ, String, Bool, false, ◌||◌, Option, none, some, List, [], ◌∷◌, ◌==◌, if◌then◌else◌,
}
use oxlens_sfu_server.Rtcp.Header.{vp8_payload_type, h264_payload_type, rtx_pt_for}

pub data TrackKind : Type 0 where
  audio : TrackKind
  video : TrackKind

pub data VideoCodec : Type 0 where
  vp8 : VideoCodec
  h264 : VideoCodec
  vp9 : VideoCodec

abbrev pub standard_pt : VideoCodec → ℕ
standard_pt vp8 = vp8_payload_type
standard_pt h264 = h264_payload_type
standard_pt vp9 = vp8_payload_type

abbrev pub standard_rtx_pt : VideoCodec → ℕ
standard_rtx_pt c = rtx_pt_for (standard_pt c)

pub record Track : Type 0 where
  pub ssrc : ℕ
  pub kind : TrackKind
  pub track_id : String
  pub rtx_ssrc : Option ℕ
  pub muted : Bool
  pub rid : Option String
  pub simulcast_group : Option ℕ
  pub video_codec : VideoCodec
  pub actual_pt : ℕ
  pub actual_rtx_pt : ℕ

-- `tracks.iter().any(|t| t.ssrc == ssrc)`
unfoldable pub has_ssrc : ℕ → List Track → Bool
has_ssrc ssrc [] = false
has_ssrc ssrc (t ∷ ts) = t.ssrc == ssrc || has_ssrc ssrc ts

-- `tracks.iter().find(|t| t.ssrc == ssrc)`
unfoldable pub find_ssrc : ℕ → List Track → Option Track
find_ssrc ssrc [] = none
find_ssrc ssrc (t ∷ ts) = let rest = find_ssrc ssrc ts in if t.ssrc == ssrc then some t else rest

-- `tracks.remove(pos)` at the first track with the SSRC.
unfoldable pub without_ssrc : ℕ → List Track → List Track
without_ssrc ssrc [] = []
without_ssrc ssrc (t ∷ ts) =
    let rest = without_ssrc ssrc ts in if t.ssrc == ssrc then ts else t ∷ rest

-- `track.muted = muted` at the first track with the SSRC.
unfoldable pub mute_ssrc : ℕ → Bool → List Track → List Track
mute_ssrc ssrc muted [] = []
mute_ssrc ssrc muted (t ∷ ts) =
    let rest = mute_ssrc ssrc muted ts in
    if t.ssrc == ssrc then record t { muted = muted } ∷ ts else t ∷ rest

-- The codec of the first video track, or VP8.
unfoldable pub first_codec : List Track → VideoCodec
first_codec [] = vp8
first_codec (t ∷ ts) = elim t.kind [ video ↦ t.video_codec | audio ↦ first_codec ts ]
