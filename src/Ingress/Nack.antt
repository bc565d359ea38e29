-- ===== src/Ingress/Nack.antt =====
-- src/transport/udp/ingress.rs: the packets that a subscriber has lost, sent to it again from the
-- publisher's cache (`handle_nack_block`).
use oxlens_sfu_server.Prelude.{
  ℕ, ◌+◌, ◌-◌, ◌*◌, Bool, false, ◌&&◌, Option, none, some, List, [], ◌∷◌, ltb, leb, ◌==◌,
  if◌then◌else◌, length, map, and_then,
}
use oxlens_sfu_server.Floor.{current_speaker, last_speaker}
use oxlens_sfu_server.Ptt
use oxlens_sfu_server.Simulcast
use oxlens_sfu_server.RtpCache
use oxlens_sfu_server.Rtcp.Nack.{NackItem, expand_nack, parse_rtcp_nack}
use oxlens_sfu_server.Rtcp.Rtx.{build_rtx_packet}
use oxlens_sfu_server.Participant.TrackList.{Track, find_ssrc}
use oxlens_sfu_server.Participant.{Participant, SubscribeLayerEntry, rtp, try_send, next_rtx_seq}
use oxlens_sfu_server.Room.{
  Pointer, Store, Room, RoomMode, conference, ptt, or_default, get_participant, find_by_track_ssrc,
  find_publisher_by_vssrc,
}
use oxlens_sfu_server.FloorOps.Effects.{video_ssrc}
use oxlens_sfu_server.Ingress.Layers.{layer_ssrc}
use oxlens_sfu_server.Ingress.Shared.{Scene, burst_to, emit, set_member}

-- RTX_BUDGET_PER_3S
abbrev pub rtx_budget : ℕ
rtx_budget = 200

-- `until > 0 && now_ms < until`
abbrev pub is_suppressed : (until now_ms : ℕ) → Bool
is_suppressed until now_ms = ltb 0 until && ltb now_ms until

-- `.or_else(..)`
abbrev pub or_else {ℓ} : {A : Type ℓ} → Option A → Option A → Option A
or_else none b = b
or_else (some a) b = some a

abbrev pub is_ptt_video : Room → RoomMode → ℕ → Bool
is_ptt_video r conference media_ssrc = false
is_ptt_video r ptt media_ssrc = r.video_rewriter.virtual_ssrc == media_ssrc

-- The stream that is asked for, and the numbers in it.
abbrev pub in_layer :
    List Track → (media_ssrc : ℕ) → List ℕ → Option SubscribeLayerEntry → ℕ × List ℕ
in_layer tracks media_ssrc lost none = (media_ssrc, lost)
in_layer tracks media_ssrc lost (some entry) = (
  or_default (layer_ssrc entry.rid tracks) media_ssrc,
  map (Simulcast.reverse_seq entry.rewriter) lost,
)

-- The speaker, or else the last one.
abbrev pub speaker_of : Room → Option Pointer
speaker_of r =
    and_then (or_else (current_speaker r.floor) (last_speaker r.floor)) (get_participant r)

-- `cache_miss > 0 && cache_miss * 2 >= cache_seqs.len()`
abbrev pub gives_up : (asked fetched : ℕ) → Bool
gives_up asked fetched = ltb 0 (asked - fetched) && leb asked ((asked - fetched) * 2)

module _ {F : Type 0} where
  abbrev pub of_publisher :
      Store F → Participant F → (media_ssrc : ℕ) → List ℕ → Option Pointer → ℕ × List ℕ
  of_publisher st subscriber media_ssrc lost none = (media_ssrc, lost)
  of_publisher st subscriber media_ssrc lost (some p) =
      in_layer (st p).tracks media_ssrc lost (subscriber.subscribe_layers (st p).user_id)

  unfoldable pub lookup_of : Store F → Room → Participant F → (media_ssrc : ℕ) → List ℕ → ℕ × List ℕ
  lookup_of st r subscriber media_ssrc lost =
      if r.simulcast_enabled
      then of_publisher st subscriber media_ssrc lost (find_publisher_by_vssrc st r media_ssrc)
      else if is_ptt_video r r.mode media_ssrc
      then (
        or_default (and_then (speaker_of r) (λ p. video_ssrc (st p).tracks)) media_ssrc,
        map (Ptt.reverse_seq r.video_state) lost,
      )
      else (media_ssrc, lost)

  -- The packets that the cache still has, each under the next number of the publisher's RTX stream.
  unfoldable pub fetch_rtx : Participant F → (rtx_ssrc : ℕ) → List ℕ → Participant F × List (List ℕ)
  fetch_rtx p rtx_ssrc [] = (p, [])
  fetch_rtx p rtx_ssrc (seq ∷ seqs) = elim (RtpCache.get p.rtp_cache seq) [
    | none ↦ fetch_rtx p rtx_ssrc seqs
    | some original ↦
        let (q, rtx_seq) = next_rtx_seq p in
        let rest = fetch_rtx q rtx_ssrc seqs in
        (rest.0, build_rtx_packet original rtx_ssrc rtx_seq ∷ rest.1)
  ]

  -- A retransmission within the budget goes into the queue. The count has 64 bits.
  unfoldable pub send_rtx : Participant F → List ℕ → Participant F
  send_rtx p packet =
      let used = record p { rtx_budget_used = p.rtx_budget_used + 1 } in
      let (q, sent) = try_send used (rtp packet) in
      if leb rtx_budget p.rtx_budget_used
      then used
      else if sent
      then record q {
        pipeline = record q.pipeline { sub_rtx_received = q.pipeline.sub_rtx_received + 1 };
      }
      else q

  unfoldable pub send_rtxs : Participant F → List (List ℕ) → Participant F
  send_rtxs p [] = p
  send_rtxs p (packet ∷ packets) = send_rtxs (send_rtx p packet) packets

  abbrev pub suppress_nacks : Participant F → (now_ms : ℕ) → Participant F
  suppress_nacks p now_ms = record p { nack_suppress_until_ms = now_ms + 5000 }

  -- What follows when the packets are fetched: too many misses end the NACKs for a while and ask
  -- for a keyframe; what was found is sent.
  unfoldable pub answer_nack :
      Scene F → (at publisher : Pointer) → (now_ms lookup_ssrc asked : ℕ) → List (List ℕ) → Scene F
  answer_nack s at publisher now_ms lookup_ssrc asked packets =
      let p = s.store publisher in
      let escalated =
        if gives_up asked (length packets)
        then emit (set_member s at (suppress_nacks (s.store at) now_ms))
            (burst_to publisher p p.publish.address (some lookup_ssrc) (0 ∷ []))
        else s in
      set_member escalated at (send_rtxs (escalated.store at) packets)

  abbrev pub with_rtx :
      Scene F
      → (at publisher : Pointer) → (now_ms lookup_ssrc : ℕ) → (seqs : List ℕ)
      → (rtx_ssrc : Option ℕ) → Scene F
  with_rtx s at publisher now_ms lookup_ssrc seqs none = s
  with_rtx s at publisher now_ms lookup_ssrc seqs (some rtx_ssrc) =
      let (p, packets) = fetch_rtx (s.store publisher) rtx_ssrc seqs in
      answer_nack (set_member s publisher p) at publisher now_ms lookup_ssrc (length seqs) packets

  abbrev pub with_publisher :
      Scene F → (at : Pointer) (now_ms lookup_ssrc : ℕ) → (seqs : List ℕ) → Option Pointer → Scene F
  with_publisher s at now_ms lookup_ssrc seqs none = s
  with_publisher s at now_ms lookup_ssrc seqs (some p) =
      if is_suppressed (s.store p).rtp_gap_suppress_until_ms now_ms
      then s
      else with_rtx s at p now_ms lookup_ssrc seqs
          (and_then (find_ssrc lookup_ssrc (s.store p).tracks) (λ t. t.rtx_ssrc))

  -- One item of the NACK.
  unfoldable pub handle_item : Scene F → (at : Pointer) (now_ms : ℕ) → NackItem → Scene F
  handle_item s at now_ms item =
      let (lookup_ssrc, seqs) =
        lookup_of s.store s.room (s.store at) item.media_ssrc (expand_nack item.pid item.blp) in
      with_publisher s at now_ms lookup_ssrc seqs (find_by_track_ssrc s.store s.room lookup_ssrc)

  unfoldable pub handle_items : Scene F → (at : Pointer) (now_ms : ℕ) → List NackItem → Scene F
  handle_items s at now_ms [] = s
  handle_items s at now_ms (item ∷ items) =
      handle_items (handle_item s at now_ms item) at now_ms items

  unfoldable pub handle_nack_block :
      Scene F → (at : Pointer) (now_ms : ℕ) → (nack_data : List ℕ) → Scene F
  handle_nack_block s at now_ms nack_data =
      if is_suppressed (s.store at).nack_suppress_until_ms now_ms
      then s
      else handle_items s at now_ms (parse_rtcp_nack nack_data)
