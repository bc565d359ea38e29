-- ===== src/Ingress/Forwarding.antt =====
-- src/transport/udp/ingress.rs (`handle_srtp`, `prepare_fanout_payload`): who gets a publisher's packet,
-- and as which bytes.
use oxlens_sfu_server.Prelude.{
  ℕ, String, ◌≡◌, ◌≢◌, ◌∙◌, sym, ap, subst, false, not, ◌&&◌, none, some, List, arith, same,
  same_iff, lookup, if◌then◌else◌,
}
use oxlens_sfu_server.Terminator.{Float64}
use oxlens_sfu_server.Rtcp.Header.{RtpHeader, parse_rtp_header, is_video_pt}
use oxlens_sfu_server.Participant.{Participant, rtp}
use oxlens_sfu_server.Room.{Pointer}
use oxlens_sfu_server.Room.Latch.{write-keeps}
use oxlens_sfu_server.Room.Sound.{UserOk, IsSound}
use oxlens_sfu_server.Ingress.Shared.{Clock, Scene, deliver, visit, set_member, emit}
use oxlens_sfu_server.Ingress.Loop.{for_ready-at, write_ne}
use oxlens_sfu_server.Ingress.Payload.{normalize_pt, prepare_fanout_payload, Payload}
use oxlens_sfu_server.Ingress.Reception.{collect_rtp_stats, watch_gap}
use oxlens_sfu_server.Ingress.Kept.{identity, frame}
use oxlens_sfu_server.Ingress.KeptMedia.{
  collect_rtp_stats-identity, watch_gap-identity, prepare-Kept,
}
use oxlens_sfu_server.Ingress.HubInvariant.{IsSound-Alike, IsSound-frame}
use oxlens_sfu_server.Ingress.{fan_out, fan_out_some, counted_in, relay_rtp}

module _ {F : Type 0} where
  -- What a member makes of a packet that goes on: it is queued if the member is ready.
  abbrev pub Gets : Participant F → List ℕ → Participant F
  Gets p payload = if p.subscribe.is_ready then deliver p (rtp payload) else p

  fan_out-at :
      (s : Scene F) (at : Pointer) (hdr : RtpHeader) (drawn now : ℕ) (payload : List ℕ) (u : String)
      (q : Pointer)
      → IsSound s.store s.room
      → (s.room.simulcast_enabled && is_video_pt hdr.pt) ≡ false
      → lookup u s.room.participants ≡ some q
      → same u (s.store at).user_id ≡ false
      → (fan_out s at hdr drawn now payload).store q ≡ Gets (s.store q) payload
  unfolding fan_out visit
  fan_out-at s at hdr drawn now payload u q v plain found other = rw plain (
      for_ready-at (λ w. not (same w (s.store at).user_id)) (λ p. deliver p (rtp payload))
        (λ p. (s.store p).user_id) s.store s.room.participants u q
        (λ w p there. (subst (UserOk s.store s.room.id w) there (v.users w)).0) v.unique found
      ∙ ap
          (λ b.
            if not b && (s.store q).subscribe.is_ready
            then deliver (s.store q) (rtp payload)
            else s.store q)
          other)

  module _ (f : Float64 F) (s : Scene F) (at : Pointer) (drawn : ℕ) (c : Clock)
      (plaintext : List ℕ) where
    -- The packet and its header with the server's payload type, and the sender that has noted it.
    abbrev pub packet : List ℕ × RtpHeader
    packet = normalize_pt (s.store at).tracks plaintext (parse_rtp_header plaintext)

    abbrev pub noted : Participant F
    noted =
        (watch_gap at (collect_rtp_stats f (counted_in (s.store at)) packet.0 packet.1 c)
          packet.1).0

    pub noted-identity : identity noted ≡ identity (s.store at)
    noted-identity =
        let stats = collect_rtp_stats f (counted_in (s.store at)) packet.0 packet.1 c in
        watch_gap-identity at stats packet.1
        ∙ collect_rtp_stats-identity f (counted_in (s.store at)) packet.0 packet.1 c

    abbrev pub payload_out : Payload F
    payload_out = prepare_fanout_payload noted s.room packet.0 packet.1 c.instant

    -- The scene in which the packet is handed out.
    abbrev handed : Scene F
    handed =
        emit (record (set_member s at payload_out.sender) { room = payload_out.room })
          (watch_gap at (collect_rtp_stats f (counted_in (s.store at)) packet.0 packet.1 c)
            packet.1).1

    handed-members : (q : Pointer) → identity (handed.store q) ≡ identity (s.store q)
    handed-members q =
        write-keeps identity s.store at q payload_out.sender
          ((prepare-Kept noted s.room packet.0 packet.1 c.instant).0 ∙ noted-identity)

    handed-room : frame handed.room ≡ frame s.room
    handed-room = (prepare-Kept noted s.room packet.0 packet.1 c.instant).1

    -- Where nothing goes on, only the sender changes.
    pub relay_rtp-none :
        (q : Pointer)
        → payload_out.bytes ≡ none
        → q ≢ at
        → (relay_rtp f s at drawn c plaintext).store q ≡ s.store q
    unfolding relay_rtp
    relay_rtp-none q nothing ne =
        ap (λ b. (fan_out_some handed at packet.1 drawn c.instant b).store q) nothing
        ∙ write_ne s.store at q payload_out.sender ne

    -- What goes on is got by every other member that is ready.
    pub relay_rtp-some :
        (payload : List ℕ) (u : String) (q : Pointer)
        → payload_out.bytes ≡ some payload
        → IsSound s.store s.room
        → (s.room.simulcast_enabled && is_video_pt packet.1.pt) ≡ false
        → lookup u s.room.participants ≡ some q
        → same u (s.store at).user_id ≡ false
        → (relay_rtp f s at drawn c plaintext).store q ≡ Gets (s.store q) payload
    unfolding relay_rtp
    relay_rtp-some payload u q goes v plain found other =
        let named : (s.store q).user_id ≡ u =
          (subst (UserOk s.store s.room.id u) found (v.users u)).0 in
        let ne : q ≢ at = λ is.
          ground (
            arith,
            same_iff u (s.store at).user_id,
            sym named ∙ ap (λ x. (s.store x).user_id) is,
          ) in
        ap (λ b. (fan_out_some handed at packet.1 drawn c.instant b).store q) goes
        ∙ fan_out-at handed at packet.1 drawn c.instant payload u q
            (IsSound-frame handed.store s.room handed.room handed-room
              (IsSound-Alike s.store handed.store s.room handed-members v))
            (ap (λ x. x.4 && is_video_pt packet.1.pt) handed-room ∙ plain)
            (ap (λ x. lookup u x.1) handed-room ∙ found)
            (ap (λ x. same u x.0) (handed-members at) ∙ other)
        ∙ ap (λ p. Gets p payload) (write_ne s.store at q payload_out.sender ne)
