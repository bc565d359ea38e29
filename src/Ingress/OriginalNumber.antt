-- ===== src/Ingress/OriginalNumber.antt =====
-- src/transport/udp/ingress.rs (`handle_nack_block`): the number that a retransmission carries in a
-- push-to-talk room.
use oxlens_sfu_server.Prelude.{
  if◌then◌else◌, ℕ, ◌<◌, ◌≡◌, ◌≢◌, refl, ◌∙◌, sym, ap, subst, true, false, some, List, [], ◌∷◌,
  ◌++◌, arith, length, map, read16, get_or-append_left, u16_mod, u32_mod, and_then, leb, ltb,
}
use oxlens_sfu_server.Ptt
use oxlens_sfu_server.RtpCache
use oxlens_sfu_server.RtpCache.{RtpCache}
use oxlens_sfu_server.Rtcp.Rtx.{build_rtx_packet}
use oxlens_sfu_server.Rtcp.Rtx.Laws.{IsHead, build_rtx_packet_lem}
use oxlens_sfu_server.Rtcp.Nack.{NackItem, expand_nack}
use oxlens_sfu_server.Participant.TrackList.{find_ssrc}
use oxlens_sfu_server.Participant.{
  Participant, EgressPacket, rtp, try_send, next_rtx_seq, egress_queue_size,
}
use oxlens_sfu_server.Room.{Pointer, Store, Room, find_by_track_ssrc}
use oxlens_sfu_server.Room.Latch.{write_self}
use oxlens_sfu_server.Ingress.Loop.{write_ne}
use oxlens_sfu_server.Ingress.Shared.{Scene, set_member}
use oxlens_sfu_server.Ingress.Nack.{
  fetch_rtx, send_rtx, send_rtxs, answer_nack, with_rtx, with_publisher, handle_item, is_ptt_video,
  lookup_of, is_suppressed, rtx_budget,
}

-- A packet that the cache has under a number carries it.
get-number :
    (c : RtpCache) (seq : ℕ) (packet : List ℕ)
    → RtpCache.get c seq ≡ some packet
    → read16 packet 2 ≡ seq
unfolding RtpCache.get
get-number c seq packet hit = ground (arith, hit)

module _ {F : Type 0} where
  lookup_of-ptt :
      (st : Store F) (r : Room) (p : Participant F) (media_ssrc : ℕ) (lost : List ℕ)
      → r.simulcast_enabled ≡ false
      → is_ptt_video r r.mode media_ssrc ≡ true
      → (lookup_of st r p media_ssrc lost).1 ≡ map (Ptt.reverse_seq r.video_state) lost
  unfolding lookup_of
  lookup_of-ptt st r p media_ssrc lost plain virtual = rw (plain, virtual) refl

  -- What a subscriber's NACK for one lost number of the virtual video stream finds: a publisher whose
  -- NACKs are answered, with an RTX stream, and his packet under the number that the rewriter leads
  -- the lost one back to; and a subscriber that the answer can be sent to.
  pub record Answerable (s : Scene F) (at : Pointer) (now_ms : ℕ) (item : NackItem) (lost : ℕ)
      (original : List ℕ) : Type 0 where
    pub publisher : Pointer
    pub rtx_ssrc : ℕ
    pub plain : s.room.simulcast_enabled ≡ false
    pub virtual : is_ptt_video s.room s.room.mode item.media_ssrc ≡ true
    pub single : expand_nack item.pid item.blp ≡ lost ∷ []
    pub found :
        let ssrc = (lookup_of s.store s.room (s.store at) item.media_ssrc (lost ∷ [])).0 in
        (find_by_track_ssrc s.store s.room ssrc ≡ some publisher)
        × (and_then (find_ssrc ssrc (s.store publisher).tracks) (λ t. t.rtx_ssrc) ≡ some rtx_ssrc)
    pub heard : is_suppressed (s.store publisher).rtp_gap_suppress_until_ms now_ms ≡ false
    pub cached :
        RtpCache.get (s.store publisher).rtp_cache (Ptt.reverse_seq s.room.video_state lost)
        ≡ some original
    pub other : at ≢ publisher
    pub ranged : (rtx_ssrc < u32_mod) × ((s.store publisher).rtx_seq < u16_mod)
    pub affordable : (s.store at).rtx_budget_used < rtx_budget
    pub room_left : length (s.store at).egress < egress_queue_size

  fetch_rtx-single :
      (p : Participant F) (rtx_ssrc seq : ℕ) (original : List ℕ)
      → RtpCache.get p.rtp_cache seq ≡ some original
      → fetch_rtx p rtx_ssrc (seq ∷ [])
        ≡ ((next_rtx_seq p).0, build_rtx_packet original rtx_ssrc p.rtx_seq ∷ [])
  unfolding fetch_rtx
  fetch_rtx-single p rtx_ssrc seq original hit = rw (fetch_rtx, hit) refl

  send_rtxs-single :
      (p : Participant F) (packet : List ℕ)
      → p.rtx_budget_used < rtx_budget
      → length p.egress < egress_queue_size
      → (send_rtxs p (packet ∷ [])).egress ≡ p.egress ++ (rtp packet ∷ [])
  unfolding send_rtxs send_rtx try_send
  send_rtxs-single p packet affordable left =
      let paid : leb rtx_budget p.rtx_budget_used ≡ false = ground (arith, affordable) in
      let fits : ltb (length p.egress) egress_queue_size ≡ true = ground (arith, left) in
      rw (paid, fits) refl

  answer_nack-single :
      (s : Scene F) (at publisher : Pointer) (now_ms ssrc : ℕ) (packet : List ℕ)
      → (s.store at).rtx_budget_used < rtx_budget
      → length (s.store at).egress < egress_queue_size
      → ((answer_nack s at publisher now_ms ssrc 1 (packet ∷ [])).store at).egress
        ≡ (s.store at).egress ++ (rtp packet ∷ [])
  unfolding answer_nack
  answer_nack-single s at publisher now_ms ssrc packet affordable left =
      ap (λ p. p.egress) (write_self s.store at (send_rtxs (s.store at) (packet ∷ [])))
      ∙ send_rtxs-single (s.store at) packet affordable left

  handle_item-single :
      (s : Scene F) (at : Pointer) (now_ms : ℕ) (item : NackItem) (lost : ℕ) (original : List ℕ)
      (v : Answerable s at now_ms item lost original)
      → ((handle_item s at now_ms item).store at).egress
        ≡ (s.store at).egress
          ++ (rtp (build_rtx_packet original v.rtx_ssrc (s.store v.publisher).rtx_seq) ∷ [])
  unfolding handle_item
  handle_item-single s at now_ms item lost original v =
      let l = lookup_of s.store s.room (s.store at) item.media_ssrc (lost ∷ []) in
      let seq = Ptt.reverse_seq s.room.video_state lost in
      let p = s.store v.publisher in
      let numbers : l.1 ≡ seq ∷ [] =
        lookup_of-ptt s.store s.room (s.store at) item.media_ssrc (lost ∷ []) v.plain v.virtual in
      let queue : Scene F → List EgressPacket = λ t. (t.store at).egress in
      let packet = build_rtx_packet original v.rtx_ssrc p.rtx_seq in
      let noted = set_member s v.publisher (next_rtx_seq p).0 in
      let same : noted.store at ≡ s.store at =
        write_ne s.store v.publisher at (next_rtx_seq p).0 v.other in
      let answer =
        answer_nack-single noted at v.publisher now_ms l.0 packet
          (subst (λ x. x.rtx_budget_used < rtx_budget) (sym same) v.affordable)
          (subst (λ x. length x.egress < egress_queue_size) (sym same) v.room_left)
        ∙ ap (λ x. x.egress ++ (rtp packet ∷ [])) same in
      ap
        (λ xs.
          let k = lookup_of s.store s.room (s.store at) item.media_ssrc xs in
          queue (with_publisher s at now_ms k.0 k.1 (find_by_track_ssrc s.store s.room k.0)))
        v.single
      ∙ ap (λ o. queue (with_publisher s at now_ms l.0 l.1 o)) v.found.0
      ∙ ap
          (λ b. queue (
            if b
            then s
            else with_rtx s at v.publisher now_ms l.0 l.1
                (and_then (find_ssrc l.0 p.tracks) (λ t. t.rtx_ssrc))))
          v.heard
      ∙ ap (λ o. queue (with_rtx s at v.publisher now_ms l.0 l.1 o)) v.found.1
      ∙ ap (λ xs. queue (with_rtx s at v.publisher now_ms l.0 xs (some v.rtx_ssrc))) numbers
      ∙ ap (λ f. queue (answer_nack (set_member s v.publisher f.0) at v.publisher now_ms l.0 1 f.1))
          (fetch_rtx-single p v.rtx_ssrc seq original v.cached)
      ∙ answer

  -- The defect: in a push-to-talk room, where a NACK for one lost number of the virtual video stream
  -- is answered (see `Answerable`), and the number that the rewriter leads it back to is another
  -- one: one retransmission is put into the subscriber's queue, and the original sequence number
  -- that it carries behind its header is the publisher's own, not the virtual one that was lost.
  pub handle_item-original_number :
      (s : Scene F) (at : Pointer) (now_ms : ℕ) (item : NackItem) (lost : ℕ) (head payload : List ℕ)
      (v : Answerable s at now_ms item lost (head ++ payload))
      → IsHead head
      → Ptt.reverse_seq s.room.video_state lost ≢ lost
      → (bytes : List ℕ) × (((handle_item s at now_ms item).store at).egress
          ≡ (s.store at).egress ++ (rtp bytes ∷ []))
        × (read16 bytes (length head) ≡ Ptt.reverse_seq s.room.video_state lost)
        × (read16 bytes (length head) ≢ lost)
  handle_item-original_number s at now_ms item lost head payload v h moved =
      let p = s.store v.publisher in
      let seq = Ptt.reverse_seq s.room.video_state lost in
      let bytes = build_rtx_packet (head ++ payload) v.rtx_ssrc p.rtx_seq in
      let rtx = build_rtx_packet_lem head payload v.rtx_ssrc p.rtx_seq h v.ranged.0 v.ranged.1 in
      let number = get-number p.rtp_cache seq (head ++ payload) v.cached in
      let head2 = get_or-append_left head payload 2 0 (omega (arith, h.long)) in
      let head3 = get_or-append_left head payload 3 0 (omega (arith, h.long)) in
      let carried : read16 bytes (length head) ≡ seq =
        rtx.2 ∙ omega (arith, head2, head3, number) in
      (
        bytes,
        handle_item-single s at now_ms item lost (head ++ payload) v,
        carried,
        (λ e. moved (sym carried ∙ e)),
      )
