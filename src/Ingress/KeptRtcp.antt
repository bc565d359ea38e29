-- ===== src/Ingress/KeptRtcp.antt =====
-- src/transport/udp/ingress.rs: the handling of RTCP keeps the participants and the indices.
use oxlens_sfu_server.Prelude.{
  ℕ, ◌+◌, ◌≡◌, refl, ◌∙◌, ap, inl, inr, Bool-cases, not, ◌&&◌, Option, none, some, List, [], ◌∷◌,
  ltb, leb, length, if◌then◌else◌, and_then,
}
use oxlens_sfu_server.Rtcp.Nack.{NackItem, expand_nack, parse_rtcp_nack}
use oxlens_sfu_server.Rtcp.Compound.{RtcpBlockRef, assemble_compound}
use oxlens_sfu_server.Participant.TrackList.{find_ssrc}
use oxlens_sfu_server.Participant.{Participant, SocketAddr, publish_pc, rtp, try_send}
use oxlens_sfu_server.Room.{Pointer, find_by_track_ssrc}
use oxlens_sfu_server.Ingress.Shared.{Scene, emit, set_member}
use oxlens_sfu_server.Ingress.Nack.{
  fetch_rtx, send_rtx, send_rtxs, rtx_budget, answer_nack, with_rtx, with_publisher, handle_item,
  handle_items, handle_nack_block, lookup_of, gives_up, suppress_nacks, is_suppressed,
}
use oxlens_sfu_server.Ingress.Retransmission.{fetch_rtx-keeps}
use oxlens_sfu_server.Ingress.Feedback.{
  Transport, Group, noted_pli, count_plis, send_encrypted, send_blocks, relay_to_addr, is_throttled,
  without_pli, relay_to_publisher, relay_group, relay_groups, relay_subscribe_rtcp_blocks,
  group_blocks,
}
use oxlens_sfu_server.Ingress.Kept.{
  identity, Kept, Kept-refl, Kept-then, Kept-set, Kept-emit, Kept-if, identity-if,
  try_send-identity,
}

module _ {F : Type 0} where
  send_rtx-identity :
      (p : Participant F) (packet : List ℕ) → identity (send_rtx p packet) ≡ identity p
  unfolding send_rtx
  send_rtx-identity p packet =
      let used = record p { rtx_budget_used = p.rtx_budget_used + 1 } in
      let q = try_send used (rtp packet) in
      identity-if p used _ (leb rtx_budget p.rtx_budget_used) refl (
        identity-if p _ q.0 q.1 (try_send-identity used (rtp packet))
          (try_send-identity used (rtp packet)))

  send_rtxs-identity :
      (p : Participant F) (packets : List (List ℕ)) → identity (send_rtxs p packets) ≡ identity p
  unfolding send_rtxs
  send_rtxs-identity p [] = refl
  send_rtxs-identity p (packet ∷ packets) =
      send_rtxs-identity (send_rtx p packet) packets ∙ send_rtx-identity p packet

  answer_nack-Kept :
      (s : Scene F) (at publisher : Pointer) (now_ms lookup_ssrc asked : ℕ)
      (packets : List (List ℕ))
      → Kept s (answer_nack s at publisher now_ms lookup_ssrc asked packets)
  unfolding answer_nack
  answer_nack-Kept s at publisher now_ms lookup_ssrc asked packets =
      let v = suppress_nacks (s.store at) now_ms in
      let send : (t : Scene F) → Kept t (set_member t at (send_rtxs (t.store at) packets)) = λ t.
        Kept-set t at (send_rtxs (t.store at) packets) (send_rtxs-identity (t.store at) packets) in
      elim (Bool-cases (gives_up asked (length packets))) [
        | inl many ↦ rw many (
            Kept-then (Kept-set s at v refl)
              (Kept-then (Kept-emit (set_member s at v) _) (send (emit (set_member s at v) _))))
        | inr few ↦ rw few (send s)
      ]

  with_rtx-Kept :
      (s : Scene F) (at publisher : Pointer) (now_ms lookup_ssrc : ℕ) (seqs : List ℕ) (o : Option ℕ)
      → Kept s (with_rtx s at publisher now_ms lookup_ssrc seqs o)
  with_rtx-Kept s at publisher now_ms lookup_ssrc seqs none = Kept-refl s
  with_rtx-Kept s at publisher now_ms lookup_ssrc seqs (some rtx_ssrc) =
      let got = fetch_rtx (s.store publisher) rtx_ssrc seqs in
      Kept-then
        (Kept-set s publisher got.0
          (ap identity (fetch_rtx-keeps (s.store publisher) rtx_ssrc seqs).1))
        (answer_nack-Kept (set_member s publisher got.0) at publisher now_ms lookup_ssrc
          (length seqs) got.1)

  with_publisher-Kept :
      (s : Scene F) (at : Pointer) (now_ms lookup_ssrc : ℕ) (seqs : List ℕ) (o : Option Pointer)
      → Kept s (with_publisher s at now_ms lookup_ssrc seqs o)
  with_publisher-Kept s at now_ms lookup_ssrc seqs none = Kept-refl s
  with_publisher-Kept s at now_ms lookup_ssrc seqs (some p) =
      Kept-if (is_suppressed (s.store p).rtp_gap_suppress_until_ms now_ms) (Kept-refl s) (
        with_rtx-Kept s at p now_ms lookup_ssrc seqs
          (and_then (find_ssrc lookup_ssrc (s.store p).tracks) (λ t. t.rtx_ssrc)))

  handle_item-Kept :
      (s : Scene F) (at : Pointer) (now_ms : ℕ) (item : NackItem)
      → Kept s (handle_item s at now_ms item)
  unfolding handle_item
  handle_item-Kept s at now_ms item =
      let lookup =
        lookup_of s.store s.room (s.store at) item.media_ssrc (expand_nack item.pid item.blp) in
      with_publisher-Kept s at now_ms lookup.0 lookup.1 (find_by_track_ssrc s.store s.room lookup.0)

  handle_items-Kept :
      (s : Scene F) (at : Pointer) (now_ms : ℕ) (items : List NackItem)
      → Kept s (handle_items s at now_ms items)
  unfolding handle_items
  handle_items-Kept s at now_ms [] = Kept-refl s
  handle_items-Kept s at now_ms (item ∷ items) =
      Kept-then (handle_item-Kept s at now_ms item)
        (handle_items-Kept (handle_item s at now_ms item) at now_ms items)

  pub handle_nack_block-Kept :
      (s : Scene F) (at : Pointer) (now_ms : ℕ) (nack_data : List ℕ)
      → Kept s (handle_nack_block s at now_ms nack_data)
  unfolding handle_nack_block
  handle_nack_block-Kept s at now_ms nack_data =
      Kept-if (is_suppressed (s.store at).nack_suppress_until_ms now_ms) (Kept-refl s)
        (handle_items-Kept s at now_ms (parse_rtcp_nack nack_data))

  module _ (x : Transport) where
    send_encrypted-Kept :
        (s : Scene F) (p : Pointer) (addr : SocketAddr) (compound : List ℕ) (plis : ℕ)
        (o : Option (List ℕ))
        → Kept s (send_encrypted x s p addr compound plis o)
    send_encrypted-Kept s p addr compound plis none = Kept-refl s
    send_encrypted-Kept s p addr compound plis (some encrypted) =
        let v = count_plis (s.store p) plis in
        Kept-if (x.send_to addr encrypted)
          (Kept-then (Kept-set s p v refl) (Kept-emit (set_member s p v) _)) (Kept-refl s)

    send_blocks-Kept :
        (s : Scene F) (p : Pointer) (addr : SocketAddr) (plis : ℕ) (blocks : List (List ℕ))
        → Kept s (send_blocks x s p addr plis blocks)
    send_blocks-Kept s p addr plis [] = Kept-refl s
    send_blocks-Kept s p addr plis (b ∷ bs) =
        let compound = assemble_compound (b ∷ bs) in
        send_encrypted-Kept s p addr compound plis (x.encrypt_rtcp p publish_pc compound)

    relay_to_addr-Kept :
        (s : Scene F) (p : Pointer) (g : Group) (now_ms : ℕ) (o : Option SocketAddr)
        → Kept s (relay_to_addr x s p g now_ms o)
    relay_to_addr-Kept s p g now_ms none = Kept-refl s
    relay_to_addr-Kept s p g now_ms (some addr) =
        let throttled = is_throttled (s.store p) g now_ms in
        let v = noted_pli (s.store p) g now_ms in
        Kept-then
          (Kept-set s p v
            (identity-if (s.store p) _ (s.store p) (ltb 0 g.plis && not throttled) refl refl))
          (send_blocks-Kept (set_member s p v) p addr (if throttled then 0 else g.plis)
            (if throttled then without_pli g.blocks else g.blocks))

    relay_to_publisher-Kept :
        (s : Scene F) (g : Group) (now_ms : ℕ) (o : Option Pointer)
        → Kept s (relay_to_publisher x s g now_ms o)
    relay_to_publisher-Kept s g now_ms none = Kept-refl s
    relay_to_publisher-Kept s g now_ms (some p) =
        Kept-if (s.store p).publish.is_ready
          (relay_to_addr-Kept s p g now_ms (s.store p).publish.address) (Kept-refl s)

    relay_groups-Kept :
        (s : Scene F) (gs : List Group) (now_ms : ℕ) → Kept s (relay_groups x s gs now_ms)
    unfolding relay_groups relay_group
    relay_groups-Kept s [] now_ms = Kept-refl s
    relay_groups-Kept s (g ∷ gs) now_ms =
        Kept-then (relay_to_publisher-Kept s g now_ms (find_by_track_ssrc s.store s.room g.ssrc))
          (relay_groups-Kept (relay_group x s g now_ms) gs now_ms)

    pub relay_subscribe_rtcp_blocks-Kept :
        (order : List Group → List Group) (s : Scene F) (at : Pointer) (plaintext : List ℕ)
        (blocks : List RtcpBlockRef) (now_ms : ℕ)
        → Kept s (relay_subscribe_rtcp_blocks x order s at plaintext blocks now_ms)
    unfolding relay_subscribe_rtcp_blocks
    relay_subscribe_rtcp_blocks-Kept order s at plaintext blocks now_ms =
        relay_groups-Kept s (order (group_blocks s.store s.room (s.store at) plaintext [] blocks))
          now_ms
