-- ===== src/Ingress/SenderReports.antt =====
-- src/transport/udp/ingress.rs: the RTCP of a publisher for its subscribers, with the sender reports
-- translated for each of them (`relay_publish_rtcp_translated`, `build_sr_translation`).
use oxlens_sfu_server.Prelude.{
  ℕ, ◌+◌, String, Bool, true, false, not, ◌&&◌, ◌||◌, Option, none, some, List, [], ◌∷◌, ◌++◌, leb,
  ◌==◌, if◌then◌else◌, same, length, read32,
}
use oxlens_sfu_server.Floor.{current_speaker}
use oxlens_sfu_server.Ptt.{translate_rtp_ts}
use oxlens_sfu_server.Rtcp.Compound.{assemble_compound}
use oxlens_sfu_server.Terminator.Sender.{SrTranslation, translate_sr}
use oxlens_sfu_server.Terminator.Source.{SendStats}
use oxlens_sfu_server.Participant.TrackList.{Track}
use oxlens_sfu_server.Participant.{Participant, rtcp, try_send, ensure_simulcast_video_ssrc}
use oxlens_sfu_server.Room.{Pointer, Store, Room, RoomMode, conference, ptt, write}
use oxlens_sfu_server.FloorOps.Effects.{is_video}
use oxlens_sfu_server.Ingress.Payload.{holds_floor}
use oxlens_sfu_server.Ingress.Shared.{Scene}

-- `tracks.iter().any(|t| t.ssrc == ssrc && t.kind == kind)`
unfoldable pub has_track : (Track → Bool) → (ssrc : ℕ) → List Track → Bool
has_track test ssrc [] = false
has_track test ssrc (t ∷ ts) = (t.ssrc == ssrc && test t) || has_track test ssrc ts

-- `map(|s| (s.packets_sent, s.bytes_sent)).unwrap_or((0, 0))`
abbrev pub counts : Option SendStats → ℕ × ℕ
counts none = (0, 0)
counts (some s) = (s.packets_sent, s.bytes_sent)

abbrev pub word_at : List ℕ → ℕ → ℕ
word_at sr_block at = if leb (at + 4) (length sr_block) then read32 sr_block at else 0

abbrev pub translation : Option ℕ → Option ℕ → ℕ × ℕ → SrTranslation
translation ssrc rtp_ts (pkt, oct) = record {
  ssrc = ssrc;
  rtp_ts = rtp_ts;
  packet_count = pkt;
  octet_count = oct;
}

-- `Some(translated)`, or else a copy of the block.
abbrev pub translated_or : List ℕ → Option (List ℕ) → List ℕ
translated_or sr_block none = sr_block
translated_or sr_block (some out) = out

-- `if !allowed { return; }`
abbrev pub may_relay : RoomMode → Room → String → Bool
may_relay conference r user_id = true
may_relay ptt r user_id = holds_floor (current_speaker r.floor) user_id

module _ {F : Type 0} where
  -- In a push-to-talk room: the virtual stream of the sender's track. It is not reached from the
  -- relay, which sends no sender reports there.
  abbrev pub ptt_translation :
      (sr_block : List ℕ) (sender target : Participant F) → Room → SrTranslation
  ptt_translation sr_block sender target r =
      if has_track (λ t. not (is_video t.kind)) (word_at sr_block 4) sender.tracks
      then translation (some r.audio_rewriter.virtual_ssrc)
          (translate_rtp_ts r.audio_state (word_at sr_block 16))
          (counts (target.send_stats r.audio_rewriter.virtual_ssrc))
      else translation (some r.video_rewriter.virtual_ssrc)
          (translate_rtp_ts r.video_state (word_at sr_block 16))
          (counts (target.send_stats r.video_rewriter.virtual_ssrc))

  -- In a conference: the counts of the stream as this subscriber gets it; a simulcast video has
  -- the publisher's virtual SSRC, which is made where there is none.
  abbrev pub conference_translation :
      (sr_block : List ℕ) (sender target : Participant F)
      → Room
      → (drawn : ℕ) → Participant F × SrTranslation
  conference_translation sr_block sender target r drawn =
      let (with_vssrc, vssrc) = ensure_simulcast_video_ssrc sender drawn in
      if r.simulcast_enabled && has_track (λ t. is_video t.kind) (word_at sr_block 4) sender.tracks
      then (with_vssrc, translation (some vssrc) none (counts (target.send_stats vssrc)))
      else (sender, translation none none (counts (target.send_stats (word_at sr_block 4))))

  -- The sender is returned, as it may have got its virtual SSRC.
  unfoldable pub build_sr_translation :
      (sr_block : List ℕ) (sender target : Participant F)
      → Room
      → (drawn : ℕ) → RoomMode
      → Participant F × SrTranslation
  build_sr_translation sr_block sender target r drawn ptt =
      (sender, ptt_translation sr_block sender target r)
  build_sr_translation sr_block sender target r drawn conference =
      conference_translation sr_block sender target r drawn

  -- The reports for one subscriber.
  unfoldable pub translate_all :
      (sr_blocks : List (List ℕ)) (sender target : Participant F)
      → Room
      → (drawn : ℕ) → Participant F × List (List ℕ)
  translate_all [] sender target r drawn = (sender, [])
  translate_all (sr_block ∷ sr_blocks) sender target r drawn =
      let (sender2, tr) = build_sr_translation sr_block sender target r drawn r.mode in
      let rest = translate_all sr_blocks sender2 target r drawn in
      (rest.0, translated_or sr_block (translate_sr sr_block tr) ∷ rest.1)

  -- The reports are for conferences only.
  abbrev pub reports_for :
      RoomMode
      → (sr_blocks : List (List ℕ)) (sender target : Participant F) → Room
      → (drawn : ℕ) → Participant F × List (List ℕ)
  reports_for ptt sr_blocks sender target r drawn = (sender, [])
  reports_for conference sr_blocks sender target r drawn =
      translate_all sr_blocks sender target r drawn

  -- A compound into the egress queue, with the counter of those that are taken.
  unfoldable pub deliver_rtcp : Participant F → List (List ℕ) → Participant F
  deliver_rtcp p [] = p
  deliver_rtcp p (block ∷ blocks) =
      let (q, sent) = try_send p (rtcp (assemble_compound (block ∷ blocks))) in
      if sent
      then record q {
        pipeline = record q.pipeline { sub_sr_relayed = q.pipeline.sub_sr_relayed + 1 };
      }
      else q

  module _ (at : Pointer) (sr_blocks relay_blocks : List (List ℕ)) (drawn : ℕ) where
    -- One member of the room, which is not the sender and is ready.
    unfoldable pub relay_to : Store F → Room → Pointer → Store F
    relay_to st r q =
        let (sender, reports) = reports_for r.mode sr_blocks (st at) (st q) r drawn in
        let st2 = write st at sender in write st2 q (deliver_rtcp (st2 q) (reports ++ relay_blocks))

    unfoldable pub relay_to_all :
        (user_id : String) → Room → Store F → List (String × Pointer) → Store F
    relay_to_all user_id r st [] = st
    relay_to_all user_id r st (e ∷ es) =
        relay_to_all user_id r
          (if not (same e.0 user_id) && (st e.1).subscribe.is_ready then relay_to st r e.1 else st)
          es

    unfoldable pub relay_publish_rtcp_translated : Scene F → Scene F
    relay_publish_rtcp_translated s =
        let user_id = (s.store at).user_id in
        if may_relay s.room.mode s.room user_id
        then record s { store = relay_to_all user_id s.room s.store s.room.participants }
        else s
