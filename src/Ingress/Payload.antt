-- ===== src/Ingress/Payload.antt =====
-- src/transport/udp/ingress.rs: the payload type as the server numbers it, and what of a packet goes
-- on to the subscribers (`prepare_fanout_payload`): the floor's gate, and the rewriters behind it.
use oxlens_sfu_server.Prelude.{
  ℕ, ◌+◌, ◌*◌, ◌/◌, String, Bool, false, not, ◌&&◌, Option, none, some, List, [], ◌∷◌, ◌==◌,
  if◌then◌else◌, same, set, byte_at,
}
use oxlens_sfu_server.Floor.{current_speaker}
use oxlens_sfu_server.Ptt
use oxlens_sfu_server.Ptt.{RewriteState, RewriteResult, ok, pending_keyframe, skip}
use oxlens_sfu_server.Keyframe.{is_vp8_keyframe, is_h264_keyframe}
use oxlens_sfu_server.Rtcp.Header.{RtpHeader, h264_payload_type, is_audio_pt, is_video_pt}
use oxlens_sfu_server.Participant.TrackList.{Track, standard_pt, standard_rtx_pt}
use oxlens_sfu_server.Participant.{Participant}
use oxlens_sfu_server.Room.{Room, RoomMode, conference, ptt}

-- `tracks.iter().find(|t| pt_of(t) != 0 && pt_of(t) == pt)`
unfoldable pub find_pt : (pt_of : Track → ℕ) → (pt : ℕ) → List Track → Option Track
find_pt pt_of pt [] = none
find_pt pt_of pt (t ∷ ts) =
    let rest = find_pt pt_of pt ts in if not (pt_of t == 0) && pt_of t == pt then some t else rest

-- `plaintext[1] = (plaintext[1] & 0x80) | pt`, and the same in the parsed header.
abbrev pub with_pt : List ℕ → RtpHeader → ℕ → List ℕ × RtpHeader
with_pt plaintext hdr pt =
    (set plaintext 1 (byte_at plaintext 1 / 128 * 128 + pt), record hdr { pt = pt })

abbrev pub normalized_by : Option Track → Option Track → List ℕ → RtpHeader → List ℕ × RtpHeader
normalized_by (some t) by_rtx plaintext hdr = with_pt plaintext hdr (standard_pt t.video_codec)
normalized_by none (some t) plaintext hdr = with_pt plaintext hdr (standard_rtx_pt t.video_codec)
normalized_by none none plaintext hdr = (plaintext, hdr)

-- The client's payload type is replaced by the server's, once.
unfoldable pub normalize_pt : List Track → List ℕ → RtpHeader → List ℕ × RtpHeader
normalize_pt tracks plaintext hdr =
    normalized_by (find_pt (λ t. t.actual_pt) hdr.pt tracks)
      (find_pt (λ t. t.actual_rtx_pt) hdr.pt tracks) plaintext hdr

-- `match current_speaker() { Some(ref speaker) if speaker == user_id => true, _ => false }`
unfoldable pub holds_floor : Option String → String → Bool
holds_floor none user_id = false
holds_floor (some speaker) user_id = same speaker user_id

unfoldable pub is_keyframe : RtpHeader → List ℕ → Bool
is_keyframe hdr packet =
    if hdr.pt == h264_payload_type then is_h264_keyframe packet else is_vp8_keyframe packet

-- The rewriter of the packet's kind: the room, the buffer and the result that it leaves.
unfoldable pub rewrite_ptt :
    Room → List ℕ → RtpHeader → (user_id : String) (now : ℕ) → Room × List ℕ × RewriteResult
rewrite_ptt r plaintext hdr user_id now =
    let a = Ptt.rewrite r.audio_rewriter r.audio_state plaintext user_id false now in
    let v =
      Ptt.rewrite r.video_rewriter r.video_state plaintext user_id (is_keyframe hdr plaintext)
        now in
    if is_audio_pt hdr.pt
    then (record r { audio_state = a.0 }, a.1, a.2)
    else if is_video_pt hdr.pt
    then (record r { video_state = v.0 }, v.1, v.2)
    else (r, plaintext, skip)

-- What goes on, and what the sender and the room have become.
pub record Payload (F : Type 0) : Type 0 where
  pub sender : Participant F
  pub room : Room
  pub bytes : Option (List ℕ)

module _ {F : Type 0} where
  abbrev pub gated : Participant F → Participant F
  gated p = record p {
    pipeline = record p.pipeline { pub_rtp_gated = p.pipeline.pub_rtp_gated + 1 };
  }

  abbrev pub rewritten : Participant F → Participant F
  rewritten p = record p {
    pipeline = record p.pipeline { pub_rtp_rewritten = p.pipeline.pub_rtp_rewritten + 1 };
  }

  abbrev pub held_back : Participant F → Participant F
  held_back p = record p {
    pipeline = record p.pipeline { pub_video_pending = p.pipeline.pub_video_pending + 1 };
  }

  -- `match result`: a packet that the rewriter skips goes on as it came.
  unfoldable pub payload_of :
      Participant F → (plaintext : List ℕ) → Room × List ℕ × RewriteResult → Payload F
  payload_of p plaintext (r, out, ok) = record { sender = rewritten p; room = r; bytes = some out }
  payload_of p plaintext (r, out, pending_keyframe) = record {
    sender = held_back p;
    room = r;
    bytes = none;
  }
  payload_of p plaintext (r, out, skip) = record { sender = p; room = r; bytes = some plaintext }

  unfoldable pub payload_in :
      RoomMode → Participant F → Room → (plaintext : List ℕ) → RtpHeader → (now : ℕ) → Payload F
  payload_in conference p r plaintext hdr now = record {
    sender = p;
    room = r;
    bytes = some plaintext;
  }
  payload_in ptt p r plaintext hdr now =
      if not (holds_floor (current_speaker r.floor) p.user_id)
      then record { sender = gated p; room = r; bytes = none }
      else payload_of p plaintext (rewrite_ptt r plaintext hdr p.user_id now)

  unfoldable pub prepare_fanout_payload :
      Participant F → Room → (plaintext : List ℕ) → RtpHeader → (now : ℕ) → Payload F
  prepare_fanout_payload p r plaintext hdr now = payload_in r.mode p r plaintext hdr now
