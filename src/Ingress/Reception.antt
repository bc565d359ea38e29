-- ===== src/Ingress/Reception.antt =====
-- src/transport/udp/ingress.rs: what a received packet leaves at its sender: the statistics, the cache
-- and the arrival for the congestion control (`collect_rtp_stats`), and the watch for gaps in the
-- video of a publisher. A poisoned lock does not occur.
use oxlens_sfu_server.Prelude.{
  ℕ, ◌+◌, ◌-◌, Bool, not, ◌&&◌, Option, none, some, List, [], ◌∷◌, ltb, ◌==◌, if◌then◌else◌,
}
use oxlens_sfu_server.RtpCache
use oxlens_sfu_server.Terminator
use oxlens_sfu_server.Terminator.{Float64, RecvStats}
use oxlens_sfu_server.Twcc.{TwccRecorder, parse_twcc_seq, note_arrival}
use oxlens_sfu_server.Rtcp.Header.{RtpHeader, is_audio_pt, is_video_pt, is_rtx_pt}
use oxlens_sfu_server.Participant.{Participant}
use oxlens_sfu_server.Room.{Pointer}
use oxlens_sfu_server.Ingress.Shared.{Clock, Effect, burst_to}

-- CLOCK_RATE_AUDIO, CLOCK_RATE_VIDEO and TWCC_EXTMAP_ID
abbrev pub clock_rate_audio : ℕ
clock_rate_audio = 48000

abbrev pub clock_rate_video : ℕ
clock_rate_video = 90000

abbrev pub default_extmap_id : ℕ
default_extmap_id = 6

-- `arrivals.record(twcc_seq, now)`, where the packet has a number.
abbrev pub recorded : TwccRecorder → Option ℕ → (now : ℕ) → TwccRecorder
recorded rec none now = rec
recorded rec (some seq) now = note_arrival rec seq now

-- `prev_ms > 0 && now_ms.saturating_sub(prev_ms) > 3000`
abbrev pub has_gap : (prev_ms now_ms : ℕ) → Bool
has_gap prev_ms now_ms = ltb 0 prev_ms && ltb 3000 (now_ms - prev_ms)

module _ {F : Type 0} where
  abbrev pub note_audio : Participant F → RtpHeader → Clock → Participant F
  note_audio p hdr c =
      if is_audio_pt hdr.pt then record p { last_audio_arrival_us = c.wall_us } else p

  module _ (f : Float64 F) where
    -- `entry(ssrc).or_insert_with(..)`
    abbrev pub stats_or_new : RtpHeader → Option (RecvStats F) → RecvStats F
    stats_or_new hdr (some s) = s
    stats_or_new hdr none =
        Terminator.new f hdr.ssrc
          (if is_audio_pt hdr.pt then clock_rate_audio else clock_rate_video)

    unfoldable pub note_stats : Participant F → RtpHeader → Clock → Participant F
    note_stats p hdr c =
        let s =
          Terminator.update f (stats_or_new hdr (p.recv_stats hdr.ssrc)) hdr.seq hdr.timestamp
            c.wall_ms in
        if is_rtx_pt hdr.pt then p else record p {
          recv_stats = λ ssrc. if ssrc == hdr.ssrc then some s else p.recv_stats ssrc;
        }

  unfoldable pub note_cache : Participant F → List ℕ → RtpHeader → Participant F
  note_cache p plaintext hdr =
      if is_video_pt hdr.pt
      then record p { rtp_cache = RtpCache.store p.rtp_cache hdr.seq plaintext }
      else p

  -- `if cid != 0 { cid } else { TWCC_EXTMAP_ID }`
  abbrev pub extmap_id : Participant F → ℕ
  extmap_id p = if p.twcc_extmap_id == 0 then default_extmap_id else p.twcc_extmap_id

  unfoldable pub note_twcc : Participant F → List ℕ → Clock → Participant F
  note_twcc p plaintext c = record p {
    twcc_recorder = recorded p.twcc_recorder (parse_twcc_seq plaintext (extmap_id p)) c.instant;
  }

  unfoldable pub collect_rtp_stats :
      Float64 F → Participant F → List ℕ → RtpHeader → Clock → Participant F
  collect_rtp_stats f p plaintext hdr c =
      note_twcc (note_cache (note_stats f (note_audio p hdr c) hdr c) plaintext hdr) plaintext c

  -- The video of a publisher, at the time of its last `touch`; after a gap, NACKs are suppressed
  -- for a while and a keyframe is asked for.
  unfoldable pub watch_gap : Pointer → Participant F → RtpHeader → Participant F × List Effect
  watch_gap at p hdr =
      let now_ms = p.last_seen in
      let seen = record p { last_video_rtp_ms = now_ms } in
      if not (is_video_pt hdr.pt)
      then (p, [])
      else if has_gap p.last_video_rtp_ms now_ms
      then (
        record seen { rtp_gap_suppress_until_ms = now_ms + 5000 },
        burst_to at p p.publish.address (some hdr.ssrc) (0 ∷ 500 ∷ 1500 ∷ []),
      )
      else (seen, [])
