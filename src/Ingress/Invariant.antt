-- ===== src/Ingress/Invariant.antt =====
-- src/transport/udp/ingress.rs (`handle_srtp`): whatever packet comes in, the hub's indices stay right
-- and the rewriters follow the floor.
use oxlens_sfu_server.Prelude.{
  ℕ, ◌≡◌, refl, ◌∙◌, not, ◌&&◌, Option, none, some, List, [], ◌∷◌, same, map, length,
}
use oxlens_sfu_server.Terminator.{Float64}
use oxlens_sfu_server.Terminator.Sender.{parse_sr_ntp}
use oxlens_sfu_server.Rtcp.Header.{RtpHeader, parse_rtp_header, is_video_pt}
use oxlens_sfu_server.Rtcp.Compound.{split_compound_rtcp}
use oxlens_sfu_server.Participant.{Participant, PcType, publish_pc, subscribe_pc, rtp}
use oxlens_sfu_server.Room.{Pointer}
use oxlens_sfu_server.Room.Latch.{write-keeps}
use oxlens_sfu_server.Ingress.Shared.{Clock, Scene, set_member, emit, deliver}
use oxlens_sfu_server.Ingress.Payload.{normalize_pt, prepare_fanout_payload}
use oxlens_sfu_server.Ingress.Reception.{collect_rtp_stats, watch_gap}
use oxlens_sfu_server.Ingress.Mbcp.{Texts, handle_mbcp_from_publish}
use oxlens_sfu_server.Ingress.Nack.{handle_nack_block}
use oxlens_sfu_server.Ingress.Feedback.{Transport, Group, block_bytes, relay_subscribe_rtcp_blocks}
use oxlens_sfu_server.Ingress.Kept.{
  identity, Kept, Kept-refl, Kept-then, Kept-set, Kept-emit, Kept-if, for_ready-Kept,
  deliver-identity,
}
use oxlens_sfu_server.Ingress.KeptMedia.{
  collect_rtp_stats-identity, watch_gap-identity, prepare-Kept, fanout_simulcast_video-Kept,
}
use oxlens_sfu_server.Ingress.KeptRtcp.{handle_nack_block-Kept, relay_subscribe_rtcp_blocks-Kept}
use oxlens_sfu_server.Ingress.KeptReports.{relay_publish-Kept}
use oxlens_sfu_server.Ingress.KeptFloor.{handle_mbcp-Kept}
use oxlens_sfu_server.Ingress.{
  is_rtcp, fan_out, fan_out_some, counted_in, relay_rtp, consume_sr, consume_srs, relay_some,
  publish_blocks, process_publish_rtcp, handle_nack_blocks, count_nacks, subscribe_blocks,
  subscribe_plain, handle_subscribe_rtcp, relay_plain, handle_from,
}

module _ {F : Type 0} where
  fan_out-Kept :
      (s : Scene F) (at : Pointer) (hdr : RtpHeader) (drawn now : ℕ) (payload : List ℕ)
      → Kept s (fan_out s at hdr drawn now payload)
  unfolding fan_out
  fan_out-Kept s at hdr drawn now payload =
      Kept-if (s.room.simulcast_enabled && is_video_pt hdr.pt)
        (fanout_simulcast_video-Kept s at payload hdr drawn now)
        (for_ready-Kept s (λ u. not (same u (s.store at).user_id)) (λ p. deliver p (rtp payload))
          (λ p. deliver-identity p (rtp payload)))

  fan_out_some-Kept :
      (s : Scene F) (at : Pointer) (hdr : RtpHeader) (drawn now : ℕ) (o : Option (List ℕ))
      → Kept s (fan_out_some s at hdr drawn now o)
  fan_out_some-Kept s at hdr drawn now none = Kept-refl s
  fan_out_some-Kept s at hdr drawn now (some payload) = fan_out-Kept s at hdr drawn now payload

  relay_rtp-Kept :
      (f : Float64 F) (s : Scene F) (at : Pointer) (drawn : ℕ) (c : Clock) (plaintext : List ℕ)
      → Kept s (relay_rtp f s at drawn c plaintext)
  unfolding relay_rtp
  relay_rtp-Kept f s at drawn c plaintext =
      let p = counted_in (s.store at) in
      let n = normalize_pt p.tracks plaintext (parse_rtp_header plaintext) in
      let stats = collect_rtp_stats f p n.0 n.1 c in
      let g = watch_gap at stats n.1 in
      let out = prepare_fanout_payload g.0 s.room n.0 n.1 c.instant in
      let k = prepare-Kept g.0 s.room n.0 n.1 c.instant in
      let mid : Scene F = record (set_member s at out.sender) { room = out.room } in
      Kept-then {t = mid}
        (record {
          members = λ q.
              write-keeps identity s.store at q out.sender
                (k.0 ∙ watch_gap-identity at stats n.1 ∙ collect_rtp_stats-identity f p n.0 n.1 c);
          indices = k.1;
          synced = k.2;
        })
        (Kept-then (Kept-emit mid g.1)
          (fan_out_some-Kept (emit mid g.1) at n.1 drawn c.instant out.bytes))

  consume_sr-identity :
      (f : Float64 F) (p : Participant F) (now : ℕ) (o : Option (ℕ × ℕ × ℕ))
      → identity (consume_sr f p now o) ≡ identity p
  consume_sr-identity f p now none = refl
  consume_sr-identity f p now (some (ssrc, hi, lo)) = refl

  consume_srs-identity :
      (f : Float64 F) (p : Participant F) (now : ℕ) (srs : List (List ℕ))
      → identity (consume_srs f p now srs) ≡ identity p
  unfolding consume_srs
  consume_srs-identity f p now [] = refl
  consume_srs-identity f p now (sr ∷ srs) =
      consume_srs-identity f (consume_sr f p now (parse_sr_ntp sr)) now srs
      ∙ consume_sr-identity f p now (parse_sr_ntp sr)

  relay_some-Kept :
      (s : Scene F) (at : Pointer) (drawn : ℕ) (srs relays : List (List ℕ))
      → Kept s (relay_some s at drawn srs relays)
  relay_some-Kept s at drawn [] [] = Kept-refl s
  relay_some-Kept s at drawn (b ∷ bs) relays = relay_publish-Kept at (b ∷ bs) relays drawn s
  relay_some-Kept s at drawn [] (b ∷ bs) = relay_publish-Kept at [] (b ∷ bs) drawn s

  process_publish_rtcp-Kept :
      (f : Float64 F) (x : Texts) (s : Scene F) (at : Pointer) (drawn : ℕ) (c : Clock)
      (o : Option (List ℕ))
      → Kept s (process_publish_rtcp f x s at drawn c o)
  unfolding publish_blocks
  process_publish_rtcp-Kept f x s at drawn c none = Kept-refl s
  process_publish_rtcp-Kept f x s at drawn c (some plaintext) =
      let parsed = split_compound_rtcp plaintext in
      let t = handle_mbcp_from_publish x at c s parsed.mbcp_blocks in
      let srs = map (block_bytes plaintext) parsed.sr_blocks in
      let v = consume_srs f (t.store at) c.instant srs in
      Kept-then (handle_mbcp-Kept x at c s parsed.mbcp_blocks) (
        Kept-then (Kept-set t at v (consume_srs-identity f (t.store at) c.instant srs)) (
          relay_some-Kept (set_member t at v) at drawn srs
            (map (block_bytes plaintext) parsed.relay_blocks)))

  handle_nack_blocks-Kept :
      (s : Scene F) (at : Pointer) (now_ms : ℕ) (bs : List (List ℕ))
      → Kept s (handle_nack_blocks s at now_ms bs)
  unfolding handle_nack_blocks
  handle_nack_blocks-Kept s at now_ms [] = Kept-refl s
  handle_nack_blocks-Kept s at now_ms (b ∷ bs) =
      Kept-then (handle_nack_block-Kept s at now_ms b)
        (handle_nack_blocks-Kept (handle_nack_block s at now_ms b) at now_ms bs)

  module _ (x : Texts) (t : Transport) (order : List Group → List Group) where
    subscribe_plain-Kept :
        (s : Scene F) (at : Pointer) (c : Clock) (o : Option (List ℕ))
        → Kept s (subscribe_plain x t order s at c o)
    unfolding subscribe_blocks
    subscribe_plain-Kept s at c none = Kept-refl s
    subscribe_plain-Kept s at c (some plaintext) =
        let parsed = split_compound_rtcp plaintext in
        let counted = set_member s at (count_nacks (s.store at) (length parsed.nack_blocks)) in
        let answered = handle_nack_blocks counted at c.wall_ms parsed.nack_blocks in
        let relayed =
          relay_subscribe_rtcp_blocks t order answered at plaintext parsed.relay_blocks c.wall_ms in
        Kept-then (Kept-set s at (count_nacks (s.store at) (length parsed.nack_blocks)) refl) (
          Kept-then (handle_nack_blocks-Kept counted at c.wall_ms parsed.nack_blocks) (
            Kept-then
              (relay_subscribe_rtcp_blocks-Kept t order answered at plaintext parsed.relay_blocks
                c.wall_ms)
              (handle_mbcp-Kept x at c relayed parsed.mbcp_blocks)))

    module _ (f : Float64 F) where
      relay_plain-Kept :
          (s : Scene F) (at : Pointer) (drawn : ℕ) (c : Clock) (o : Option (List ℕ))
          → Kept s (relay_plain x t order f s at drawn c o)
      relay_plain-Kept s at drawn c none = Kept-refl s
      relay_plain-Kept s at drawn c (some plaintext) = relay_rtp-Kept f s at drawn c plaintext

      -- Every packet of a member, on either connection, of any kind, leaves its room's indices and
      -- everybody's identity as they were, and the rewriters on the speaker.
      pub handle_from-Kept :
          (s : Scene F) (at : Pointer) (drawn : ℕ) (c : Clock) (pc : PcType) (buf : List ℕ)
          → Kept s (handle_from x t order f s at drawn c pc buf)
      unfolding handle_from handle_subscribe_rtcp
      handle_from-Kept s at drawn c subscribe_pc buf =
          Kept-if (is_rtcp buf) (subscribe_plain-Kept s at c (t.decrypt_rtcp at subscribe_pc buf))
            (Kept-refl s)
      handle_from-Kept s at drawn c publish_pc buf =
          Kept-if (not (s.store at).publish.is_ready) (Kept-refl s) (
            Kept-if (is_rtcp buf)
              (process_publish_rtcp-Kept f x s at drawn c (t.decrypt_rtcp at publish_pc buf))
              (relay_plain-Kept s at drawn c (t.decrypt_rtp at publish_pc buf)))
