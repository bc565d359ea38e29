-- ===== src/Ingress/KeptMedia.antt =====
-- src/transport/udp/ingress.rs: the handling of RTP keeps the participants and the indices.
use oxlens_sfu_server.Prelude.{
  ℕ, String, ◌≡◌, refl, ◌∙◌, inl, inr, Bool-cases, Bool, false, ◌&&◌, ◌||◌, Option, none, some,
  List, [], ◌∷◌, arith, if◌then◌else◌, and_then,
}
use oxlens_sfu_server.Floor.{current_speaker}
use oxlens_sfu_server.Ptt
use oxlens_sfu_server.Ptt.{
  PttRewriter, RewriteState, RewriteResult, ok, pending_keyframe, skip, is_speaker,
  rewrite_accepted, begin_stream, pending_ts,
}
use oxlens_sfu_server.Terminator.{Float64}
use oxlens_sfu_server.Rtcp.Header.{RtpHeader, is_audio_pt, is_video_pt, is_rtx_pt}
use oxlens_sfu_server.Participant.{Participant, ensure_simulcast_video_ssrc, rtp}
use oxlens_sfu_server.Participant.TrackList.{find_ssrc}
use oxlens_sfu_server.Room.{Pointer, Room, RoomMode, conference, ptt}
use oxlens_sfu_server.FloorOps.Answers.{IsSynced}
use oxlens_sfu_server.Ingress.Shared.{Clock, Scene, emit, set_member}
use oxlens_sfu_server.Ingress.Payload.{
  Payload, holds_floor, is_keyframe, rewrite_ptt, payload_of, payload_in, prepare_fanout_payload,
}
use oxlens_sfu_server.Ingress.Reception.{
  note_stats, note_cache, note_twcc, collect_rtp_stats, watch_gap, has_gap,
}
use oxlens_sfu_server.Ingress.Layers.{
  forwarded_to, deliver_some, serve, serve_all, is_served, burst_once, fanout_layer,
  fanout_simulcast_video,
}
use oxlens_sfu_server.Ingress.Kept.{
  identity, frame, Kept, Kept-refl, Kept-then, Kept-set, Kept-emit, identity-if, deliver-identity,
}

rewrite-speaker :
    (w : PttRewriter) (s : RewriteState) (buf : List ℕ) (sender : String) (key : Bool) (now : ℕ)
    → (Ptt.rewrite w s buf sender key now).0.speaker ≡ s.speaker
unfolding Ptt.rewrite rewrite_accepted begin_stream
rewrite-speaker w s buf sender key now = ground arith

rewrite_ptt-frame :
    (r : Room) (plaintext : List ℕ) (hdr : RtpHeader) (user_id : String) (now : ℕ)
    → (frame (rewrite_ptt r plaintext hdr user_id now).0 ≡ frame r)
      × (IsSynced r → IsSynced (rewrite_ptt r plaintext hdr user_id now).0)
unfolding rewrite_ptt
rewrite_ptt-frame r plaintext hdr user_id now =
    let a = rewrite-speaker r.audio_rewriter r.audio_state plaintext user_id false now in
    let v =
      rewrite-speaker r.video_rewriter r.video_state plaintext user_id (is_keyframe hdr plaintext)
        now in
    elim (Bool-cases (is_audio_pt hdr.pt)) [
      | inl audio ↦ rw audio (refl, λ h. (a ∙ h.0, h.1))
      | inr other ↦ elim (Bool-cases (is_video_pt hdr.pt)) [
        | inl video ↦ rw (other, video) (refl, λ h. (h.0, v ∙ h.1))
        | inr neither ↦ rw (other, neither) (refl, λ h. h)
      ]
    ]

module _ {F : Type 0} where
  note_stats-identity :
      (f : Float64 F) (p : Participant F) (hdr : RtpHeader) (c : Clock)
      → identity (note_stats f p hdr c) ≡ identity p
  unfolding note_stats
  note_stats-identity f p hdr c = identity-if p p _ (is_rtx_pt hdr.pt) refl refl

  note_cache-identity :
      (p : Participant F) (plaintext : List ℕ) (hdr : RtpHeader)
      → identity (note_cache p plaintext hdr) ≡ identity p
  unfolding note_cache
  note_cache-identity p plaintext hdr = identity-if p _ p (is_video_pt hdr.pt) refl refl

  pub collect_rtp_stats-identity :
      (f : Float64 F) (p : Participant F) (plaintext : List ℕ) (hdr : RtpHeader) (c : Clock)
      → identity (collect_rtp_stats f p plaintext hdr c) ≡ identity p
  unfolding collect_rtp_stats note_twcc
  collect_rtp_stats-identity f p plaintext hdr c =
      let heard : Participant F =
        if is_audio_pt hdr.pt then record p { last_audio_arrival_us = c.wall_us } else p in
      note_cache-identity (note_stats f heard hdr c) plaintext hdr
      ∙ note_stats-identity f heard hdr c
      ∙ identity-if p _ p (is_audio_pt hdr.pt) refl refl

  pub watch_gap-identity :
      (at : Pointer) (p : Participant F) (hdr : RtpHeader)
      → identity (watch_gap at p hdr).0 ≡ identity p
  unfolding watch_gap
  watch_gap-identity at p hdr = elim (Bool-cases (is_video_pt hdr.pt)) [
    | inl video ↦ elim (Bool-cases (has_gap p.last_video_rtp_ms p.last_seen)) [
      | inl gap ↦ rw (video, gap) refl
      | inr steady ↦ rw (video, steady) refl
    ]
    | inr other ↦ rw other refl
  ]

  -- What the payload leaves of the sender and the room.
  abbrev pub PayloadKept : Participant F → Room → Payload F → Type 0
  PayloadKept p r out =
      (identity out.sender ≡ identity p)
      × (frame out.room ≡ frame r)
      × (IsSynced r → IsSynced out.room)

  payload_of-Kept :
      (p : Participant F) (r : Room) (plaintext : List ℕ) (room : Room) (out : List ℕ)
      (result : RewriteResult)
      → (frame room ≡ frame r) × (IsSynced r → IsSynced room)
      → PayloadKept p r (payload_of p plaintext (room, out, result))
  unfolding payload_of
  payload_of-Kept p r plaintext room out ok h = (refl, h.0, h.1)
  payload_of-Kept p r plaintext room out pending_keyframe h = (refl, h.0, h.1)
  payload_of-Kept p r plaintext room out skip h = (refl, h.0, h.1)

  payload_in-Kept :
      (m : RoomMode) (p : Participant F) (r : Room) (plaintext : List ℕ) (hdr : RtpHeader) (now : ℕ)
      → PayloadKept p r (payload_in m p r plaintext hdr now)
  unfolding payload_in
  payload_in-Kept conference p r plaintext hdr now = (refl, refl, λ h. h)
  payload_in-Kept ptt p r plaintext hdr now =
      let w = rewrite_ptt r plaintext hdr p.user_id now in
      elim (Bool-cases (holds_floor (current_speaker r.floor) p.user_id)) [
        | inl holds ↦ rw holds (
            payload_of-Kept p r plaintext w.0 w.1 w.2
              (rewrite_ptt-frame r plaintext hdr p.user_id now))
        | inr gated ↦ rw gated (refl, refl, λ h. h)
      ]

  pub prepare-Kept :
      (p : Participant F) (r : Room) (plaintext : List ℕ) (hdr : RtpHeader) (now : ℕ)
      → PayloadKept p r (prepare_fanout_payload p r plaintext hdr now)
  unfolding prepare_fanout_payload
  prepare-Kept p r plaintext hdr now = payload_in-Kept r.mode p r plaintext hdr now

  deliver_some-identity :
      (p : Participant F) (o : Option (List ℕ)) → identity (deliver_some p o) ≡ identity p
  deliver_some-identity p none = refl
  deliver_some-identity p (some packet) = deliver-identity p (rtp packet)

  module _ (user_id sender_rid : String) (payload : List ℕ) (key : Bool) (vssrc now : ℕ) where
    serve-identity :
        (p : Participant F)
        → identity (serve user_id sender_rid payload key vssrc now p) ≡ identity p
    unfolding serve
    serve-identity p =
        deliver_some-identity _ (forwarded_to user_id sender_rid payload key vssrc now p).packet

    serve_all-Kept :
        (at : Pointer) (s : Scene F) (pli_sent : Bool) (es : List (String × Pointer))
        → Kept s (serve_all user_id sender_rid payload key vssrc now at s pli_sent es)
    unfolding serve_all
    serve_all-Kept at s pli_sent [] = Kept-refl s
    serve_all-Kept at s pli_sent (e ∷ es) =
        let p = s.store e.1 in
        let served = is_served user_id sender_rid payload key vssrc now e.0 p in
        let needed = served && (forwarded_to user_id sender_rid payload key vssrc now p).need_pli in
        let v = if served then serve user_id sender_rid payload key vssrc now p else p in
        let once =
          burst_once user_id sender_rid payload key vssrc now at (s.store at) needed pli_sent in
        Kept-then (Kept-set s e.1 v (identity-if p _ p served (serve-identity p) refl)) (
          Kept-then (Kept-emit (set_member s e.1 v) once)
            (serve_all-Kept at (emit (set_member s e.1 v) once) (pli_sent || needed) es))

  fanout_layer-Kept :
      (s : Scene F) (at : Pointer) (payload : List ℕ) (hdr : RtpHeader) (drawn now : ℕ)
      (o : Option String)
      → Kept s (fanout_layer s at payload hdr drawn now o)
  unfolding ensure_simulcast_video_ssrc
  fanout_layer-Kept s at payload hdr drawn now none = Kept-refl s
  fanout_layer-Kept s at payload hdr drawn now (some sender_rid) =
      let e = ensure_simulcast_video_ssrc (s.store at) drawn in
      Kept-then (Kept-set s at e.0 (ground arith)) (
        serve_all-Kept (s.store at).user_id sender_rid payload (is_keyframe hdr payload) e.1 now at
          (set_member s at e.0) false s.room.participants)

  pub fanout_simulcast_video-Kept :
      (s : Scene F) (at : Pointer) (payload : List ℕ) (hdr : RtpHeader) (drawn now : ℕ)
      → Kept s (fanout_simulcast_video s at payload hdr drawn now)
  unfolding fanout_simulcast_video
  fanout_simulcast_video-Kept s at payload hdr drawn now =
      fanout_layer-Kept s at payload hdr drawn now
        (and_then (find_ssrc hdr.ssrc (s.store at).tracks) (λ t. t.rid))
