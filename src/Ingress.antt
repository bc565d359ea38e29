-- ===== src/Ingress.antt =====
-- src/transport/udp/ingress.rs: what becomes of an SRTP packet that comes in (`handle_srtp`). Each child
-- is about one part of that file. SRTP, the socket, the texts of Rust's formatter and the order of a
-- hash map's entries are parameters; each clock is read once for a packet.
pub mod Shared
pub mod Loop
pub mod Payload
pub mod Reception
pub mod Layers
pub mod Nack
pub mod Retransmission
pub mod Budget
pub mod Escalation
pub mod OriginalNumber
pub mod Mbcp
pub mod MbcpSync
pub mod SenderReports
pub mod Feedback
pub mod Kept
pub mod KeptMedia
pub mod KeptRtcp
pub mod KeptReports
pub mod KeptFloor
pub mod Invariant
pub mod HubInvariant
pub mod Forwarding
pub mod Retyped
pub mod Gate
pub mod Unswitched
pub mod Throttle
pub mod LayerEntry
pub mod LayerLaws
mod Samples
mod Tests
mod RtcpTests
use oxlens_sfu_server.Prelude.{
  ℕ, ◌+◌, ◌%◌, String, Bool, true, false, not, ◌&&◌, Option, none, some, List, [], ◌∷◌, ◌++◌, leb,
  ◌==◌, if◌then◌else◌, same, length, byte_at, assign, map, take, drop,
}
use oxlens_sfu_server.Terminator
use oxlens_sfu_server.Terminator.{Float64, RecvStats, on_sr_received}
use oxlens_sfu_server.Terminator.Sender.{parse_sr_ntp}
use oxlens_sfu_server.Rtcp.Header.{RtpHeader, parse_rtp_header, is_video_pt}
use oxlens_sfu_server.Rtcp.Mbcp.{MbcpMessage}
use oxlens_sfu_server.Rtcp.Compound.{CompoundRtcpParsed, RtcpBlockRef, split_compound_rtcp}
use oxlens_sfu_server.Participant.{
  Participant, SocketAddr, PcType, publish_pc, subscribe_pc, rtp, touch,
}
use oxlens_sfu_server.Room.{Pointer, Store, Room, write}
use oxlens_sfu_server.Hub.{Hub, find_by_addr}
use Shared.{Clock, Scene, Effect, set_member, emit, deliver, for_ready}
use Payload.{normalize_pt, prepare_fanout_payload}
use Reception.{collect_rtp_stats, watch_gap}
use Layers.{fanout_simulcast_video}
use Nack.{handle_nack_block}
use Mbcp.{Texts, handle_mbcp_from_publish}
use SenderReports.{relay_publish_rtcp_translated}
use Feedback.{Transport, Group, block_bytes, relay_subscribe_rtcp_blocks}

-- RFC 5761: the payload types 72 to 79 are RTCP's.
unfoldable pub is_rtcp : List ℕ → Bool
is_rtcp buf = leb 2 (length buf) && (leb 72 (byte_at buf 1 % 128) && leb (byte_at buf 1 % 128) 79)

module _ {F : Type 0} where
  -- Everybody else who is ready gets the packet; a video with simulcast is served in layers.
  unfoldable pub fan_out : Scene F → Pointer → RtpHeader → (drawn now : ℕ) → List ℕ → Scene F
  fan_out s at hdr drawn now payload =
      if s.room.simulcast_enabled && is_video_pt hdr.pt
      then fanout_simulcast_video s at payload hdr drawn now
      else record s {
        store =
            for_ready (λ u. not (same u (s.store at).user_id)) (λ p. deliver p (rtp payload))
              s.store s.room.participants;
      }

  abbrev pub fan_out_some :
      Scene F → Pointer → RtpHeader → (drawn now : ℕ) → Option (List ℕ) → Scene F
  fan_out_some s at hdr drawn now none = s
  fan_out_some s at hdr drawn now (some payload) = fan_out s at hdr drawn now payload

  abbrev pub counted_in : Participant F → Participant F
  counted_in p = record p {
    pipeline = record p.pipeline { pub_rtp_in = p.pipeline.pub_rtp_in + 1 };
  }

  -- A decrypted packet of a publisher.
  unfoldable pub relay_rtp :
      Float64 F → Scene F → Pointer → (drawn : ℕ) → Clock → (plaintext : List ℕ) → Scene F
  relay_rtp f s at drawn c plaintext =
      let p = counted_in (s.store at) in
      let (packet, hdr) = normalize_pt p.tracks plaintext (parse_rtp_header plaintext) in
      let (q, bursts) = watch_gap at (collect_rtp_stats f p packet hdr c) hdr in
      let out = prepare_fanout_payload q s.room packet hdr c.instant in
      fan_out_some (emit (record (set_member s at out.sender) { room = out.room }) bursts) at hdr
        drawn c.instant out.bytes

  -- The times of a sender report, in the statistics of its stream if there are any.
  abbrev pub heard_report :
      Float64 F → Option (RecvStats F) → (hi lo now : ℕ) → Option (RecvStats F)
  heard_report f none hi lo now = none
  heard_report f (some stats) hi lo now = some (on_sr_received f stats hi lo now)

  abbrev pub consume_sr : Float64 F → Participant F → (now : ℕ) → Option (ℕ × ℕ × ℕ) → Participant F
  consume_sr f p now none = p
  consume_sr f p now (some (ssrc, hi, lo)) = record p {
    recv_stats =
        λ q. if q == ssrc then heard_report f (p.recv_stats ssrc) hi lo now else p.recv_stats q;
  }

  unfoldable pub consume_srs : Float64 F → Participant F → (now : ℕ) → List (List ℕ) → Participant F
  consume_srs f p now [] = p
  consume_srs f p now (sr_data ∷ srs) =
      consume_srs f (consume_sr f p now (parse_sr_ntp sr_data)) now srs

  -- The blocks, but not if there is none of either kind.
  abbrev pub relay_some :
      Scene F → Pointer → (drawn : ℕ) → (sr_data relay_data : List (List ℕ)) → Scene F
  relay_some s at drawn [] [] = s
  relay_some s at drawn (b ∷ bs) relay_data =
      relay_publish_rtcp_translated at (b ∷ bs) relay_data drawn s
  relay_some s at drawn [] (b ∷ bs) = relay_publish_rtcp_translated at [] (b ∷ bs) drawn s

  -- `if !parsed.mbcp_blocks.is_empty()` is not needed: no message changes nothing.
  unfoldable pub publish_blocks :
      Float64 F
      → Texts
      → Scene F
      → Pointer
      → (drawn : ℕ) → Clock
      → (plaintext : List ℕ) → CompoundRtcpParsed
      → Scene F
  publish_blocks f x s at drawn c plaintext parsed =
      let t = handle_mbcp_from_publish x at c s parsed.mbcp_blocks in
      let sr_data = map (block_bytes plaintext) parsed.sr_blocks in
      relay_some (set_member t at (consume_srs f (t.store at) c.instant sr_data)) at drawn sr_data
        (map (block_bytes plaintext) parsed.relay_blocks)

  abbrev pub process_publish_rtcp :
      Float64 F → Texts → Scene F → Pointer → (drawn : ℕ) → Clock → Option (List ℕ) → Scene F
  process_publish_rtcp f x s at drawn c none = s
  process_publish_rtcp f x s at drawn c (some plaintext) =
      publish_blocks f x s at drawn c plaintext (split_compound_rtcp plaintext)

  unfoldable pub handle_nack_blocks :
      Scene F → (at : Pointer) (now_ms : ℕ) → List (List ℕ) → Scene F
  handle_nack_blocks s at now_ms [] = s
  handle_nack_blocks s at now_ms (b ∷ bs) =
      handle_nack_blocks (handle_nack_block s at now_ms b) at now_ms bs

  abbrev pub count_nacks : Participant F → ℕ → Participant F
  count_nacks p n = record p {
    pipeline = record p.pipeline { sub_nack_sent = p.pipeline.sub_nack_sent + n };
  }

  module _ (x : Texts) (t : Transport) (order : List Group → List Group) where
    -- The receiver reports are consumed.
    unfoldable pub subscribe_blocks :
        Scene F → Pointer → Clock → (plaintext : List ℕ) → CompoundRtcpParsed → Scene F
    subscribe_blocks s at c plaintext parsed =
        let counted = set_member s at (count_nacks (s.store at) (length parsed.nack_blocks)) in
        let answered = handle_nack_blocks counted at c.wall_ms parsed.nack_blocks in
        let relayed =
          relay_subscribe_rtcp_blocks t order answered at plaintext parsed.relay_blocks c.wall_ms in
        handle_mbcp_from_publish x at c relayed parsed.mbcp_blocks

    abbrev pub subscribe_plain : Scene F → Pointer → Clock → Option (List ℕ) → Scene F
    subscribe_plain s at c none = s
    subscribe_plain s at c (some plaintext) =
        subscribe_blocks s at c plaintext (split_compound_rtcp plaintext)

    unfoldable pub handle_subscribe_rtcp : Scene F → Pointer → Clock → (buf : List ℕ) → Scene F
    handle_subscribe_rtcp s at c buf =
        if is_rtcp buf then subscribe_plain s at c (t.decrypt_rtcp at subscribe_pc buf) else s

    module _ (f : Float64 F) where
      abbrev pub relay_plain : Scene F → Pointer → (drawn : ℕ) → Clock → Option (List ℕ) → Scene F
      relay_plain s at drawn c none = s
      relay_plain s at drawn c (some plaintext) = relay_rtp f s at drawn c plaintext

      -- A packet of a member, by the connection it came on.
      unfoldable pub handle_from :
          Scene F → Pointer → (drawn : ℕ) → Clock → PcType → (buf : List ℕ) → Scene F
      handle_from s at drawn c subscribe_pc buf = handle_subscribe_rtcp s at c buf
      handle_from s at drawn c publish_pc buf =
          if not (s.store at).publish.is_ready
          then s
          else if is_rtcp buf
          then process_publish_rtcp f x s at drawn c (t.decrypt_rtcp at publish_pc buf)
          else relay_plain s at drawn c (t.decrypt_rtp at publish_pc buf)

      -- The hub with the room and the store that the handler leaves.
      abbrev pub put_back : Hub F → Scene F → Hub F
      put_back h s = record h { store = s.store; rooms = assign s.room.id s.room h.rooms }

      abbrev pub handle_found :
          Hub F
          → (drawn : ℕ) → Clock
          → (buf : List ℕ) → Option (Pointer × PcType × Room)
          → Hub F × List Effect
      handle_found h drawn c buf none = (h, [])
      handle_found h drawn c buf (some (p, pc, r)) =
          let touched : Scene F = record {
            store = write h.store p (touch (h.store p) c.wall_ms);
            room = r;
            effects = [];
          } in
          let left = handle_from touched p drawn c pc buf in (put_back h left, left.effects)

      unfoldable pub handle_srtp :
          Hub F → (drawn : ℕ) → Clock → (buf : List ℕ) → SocketAddr → Hub F × List Effect
      handle_srtp h drawn c buf remote = handle_found h drawn c buf (find_by_addr h remote)
