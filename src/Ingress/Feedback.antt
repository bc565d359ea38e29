-- ===== src/Ingress/Feedback.antt =====
-- src/transport/udp/ingress.rs: the PLIs and bandwidth estimates of a subscriber, on their way to the
-- publishers (`relay_subscribe_rtcp_blocks`). The order in which a hash map hands out its entries,
-- the encryption and the socket are parameters.
use oxlens_sfu_server.Prelude.{
  ℕ, ◌+◌, ◌-◌, ◌%◌, Bool, false, not, ◌&&◌, ◌||◌, Option, none, some, List, [], ◌∷◌, ◌++◌, ltb,
  ◌==◌, if◌then◌else◌, take, drop, byte_at, and_then,
}
use oxlens_sfu_server.Rtcp.Compound.{RtcpBlockRef, assemble_compound}
use oxlens_sfu_server.Participant.TrackList.{Track}
use oxlens_sfu_server.Participant.{Participant, SocketAddr, PcType}
use oxlens_sfu_server.Room.{
  Pointer, Store, Room, RoomMode, conference, ptt, or_default, find_by_track_ssrc,
  find_publisher_by_vssrc,
}
use oxlens_sfu_server.FloorOps.Effects.{is_video}
use oxlens_sfu_server.Ingress.Layers.{layer_ssrc}
use oxlens_sfu_server.Ingress.Nack.{speaker_of, is_ptt_video}
use oxlens_sfu_server.Ingress.Shared.{Scene, send_publish, emit, set_member}

-- The SRTP contexts of a session, and the socket.
pub record Transport : Type 0 where
  pub decrypt_rtp : Pointer → PcType → List ℕ → Option (List ℕ)
  pub decrypt_rtcp : Pointer → PcType → List ℕ → Option (List ℕ)
  pub encrypt_rtp : Pointer → PcType → List ℕ → Option (List ℕ)
  pub encrypt_rtcp : Pointer → PcType → List ℕ → Option (List ℕ)
  pub send_to : SocketAddr → List ℕ → Bool

-- The blocks for a stream, and the PLIs that are counted among them.
pub record Group : Type 0 where
  pub ssrc : ℕ
  pub blocks : List (List ℕ)
  pub plis : ℕ

-- `entry(ssrc).or_default().push(block)`, and the count of PLIs.
unfoldable pub add_to : List Group → (ssrc : ℕ) → (block : List ℕ) → (plis : ℕ) → List Group
add_to [] ssrc block plis = record { ssrc = ssrc; blocks = block ∷ []; plis = plis } ∷ []
add_to (g ∷ gs) ssrc block plis =
    let rest = add_to gs ssrc block plis in
    if g.ssrc == ssrc
    then record g { blocks = g.blocks ++ (block ∷ []); plis = g.plis + plis } ∷ gs
    else g ∷ rest

-- `RTCP_PT_PSFB`
abbrev pub pt_psfb : ℕ
pt_psfb = 206

-- `&plaintext[block.offset..block.offset + block.length]`
abbrev pub block_bytes : List ℕ → RtcpBlockRef → List ℕ
block_bytes plaintext block = take block.size (drop block.offset plaintext)

-- The filter against PLIs, with the mask that the source puts on the second byte.
abbrev pub is_other : List ℕ → Bool
is_other block = not (byte_at block 1 % 128 == pt_psfb)

unfoldable pub without_pli : List (List ℕ) → List (List ℕ)
without_pli [] = []
without_pli (b ∷ bs) = let rest = without_pli bs in if is_other b then b ∷ rest else rest

-- `find(..)` of the speaker's first track of the kind.
unfoldable pub kind_ssrc : (Track → Bool) → List Track → Option ℕ
kind_ssrc test [] = none
kind_ssrc test (t ∷ ts) = let rest = kind_ssrc test ts in if test t then some t.ssrc else rest

abbrev pub is_ptt_audio : Room → RoomMode → ℕ → Bool
is_ptt_audio r conference media_ssrc = false
is_ptt_audio r ptt media_ssrc = r.audio_rewriter.virtual_ssrc == media_ssrc

module _ {F : Type 0} where
  abbrev pub layer_of : Store F → Participant F → Option Pointer → Option ℕ
  layer_of st subscriber none = none
  layer_of st subscriber (some p) =
      and_then (subscriber.subscribe_layers (st p).user_id)
        (λ entry. layer_ssrc entry.rid (st p).tracks)

  -- The stream of a publisher that a stream of the subscriber is made of.
  unfoldable pub effective_ssrc : Store F → Room → Participant F → (media_ssrc : ℕ) → ℕ
  effective_ssrc st r subscriber media_ssrc =
      let video = is_ptt_video r r.mode media_ssrc in
      if r.simulcast_enabled
      then or_default (layer_of st subscriber (find_publisher_by_vssrc st r media_ssrc)) media_ssrc
      else if is_ptt_audio r r.mode media_ssrc || video
      then or_default
          (and_then (speaker_of r) (λ p.
            kind_ssrc (λ t. if video then is_video t.kind else not (is_video t.kind))
              (st p).tracks))
          media_ssrc
      else media_ssrc

  unfoldable pub group_blocks :
      Store F
      → Room
      → Participant F
      → (plaintext : List ℕ) → List Group
      → List RtcpBlockRef
      → List Group
  group_blocks st r subscriber plaintext gs [] = gs
  group_blocks st r subscriber plaintext gs (block ∷ blocks) =
      group_blocks st r subscriber plaintext
        (if block.media_ssrc == 0
          then gs
          else add_to gs (effective_ssrc st r subscriber block.media_ssrc)
              (block_bytes plaintext block)
              (if byte_at plaintext (block.offset + 1) == pt_psfb then 1 else 0))
        blocks

  -- `now_ms.saturating_sub(last_pli) < 3000`, for a group with PLIs.
  abbrev pub is_throttled : Participant F → Group → (now_ms : ℕ) → Bool
  is_throttled p g now_ms = ltb 0 g.plis && ltb (now_ms - p.last_pli_relay_ms) 3000

  -- The publisher with the time of the PLI that is let through.
  abbrev pub noted_pli : Participant F → Group → (now_ms : ℕ) → Participant F
  noted_pli p g now_ms =
      if ltb 0 g.plis && not (is_throttled p g now_ms)
      then record p { last_pli_relay_ms = now_ms }
      else p

  abbrev pub count_plis : Participant F → ℕ → Participant F
  count_plis p plis = record p {
    pipeline = record p.pipeline { pub_pli_received = p.pipeline.pub_pli_received + plis };
  }

  module _ (x : Transport) where
    -- After the encryption.
    abbrev pub send_encrypted :
        Scene F
        → Pointer
        → SocketAddr
        → (compound : List ℕ) → (plis : ℕ) → Option (List ℕ)
        → Scene F
    send_encrypted s p addr compound plis none = s
    send_encrypted s p addr compound plis (some encrypted) =
        if x.send_to addr encrypted
        then emit (set_member s p (count_plis (s.store p) plis)) (send_publish p addr compound ∷ [])
        else s

    -- Nothing is sent where no block is left; a group has a block at first.
    abbrev pub send_blocks : Scene F → Pointer → SocketAddr → (plis : ℕ) → List (List ℕ) → Scene F
    send_blocks s p addr plis [] = s
    send_blocks s p addr plis (b ∷ bs) =
        let compound = assemble_compound (b ∷ bs) in
        send_encrypted s p addr compound plis (x.encrypt_rtcp p PcType.publish_pc compound)

    abbrev pub relay_to_addr :
        Scene F → Pointer → Group → (now_ms : ℕ) → Option SocketAddr → Scene F
    relay_to_addr s p g now_ms none = s
    relay_to_addr s p g now_ms (some addr) =
        let throttled = is_throttled (s.store p) g now_ms in
        send_blocks (set_member s p (noted_pli (s.store p) g now_ms)) p addr
          (if throttled then 0 else g.plis) (if throttled then without_pli g.blocks else g.blocks)

    abbrev pub relay_to_publisher : Scene F → Group → (now_ms : ℕ) → Option Pointer → Scene F
    relay_to_publisher s g now_ms none = s
    relay_to_publisher s g now_ms (some p) =
        if (s.store p).publish.is_ready
        then relay_to_addr s p g now_ms (s.store p).publish.address
        else s

    unfoldable pub relay_group : Scene F → Group → (now_ms : ℕ) → Scene F
    relay_group s g now_ms =
        relay_to_publisher s g now_ms (find_by_track_ssrc s.store s.room g.ssrc)

    unfoldable pub relay_groups : Scene F → List Group → (now_ms : ℕ) → Scene F
    relay_groups s [] now_ms = s
    relay_groups s (g ∷ gs) now_ms = relay_groups (relay_group s g now_ms) gs now_ms

    unfoldable pub relay_subscribe_rtcp_blocks :
        (order : List Group → List Group)
        → Scene F
        → (at : Pointer) → (plaintext : List ℕ) → List RtcpBlockRef
        → (now_ms : ℕ) → Scene F
    relay_subscribe_rtcp_blocks order s at plaintext blocks now_ms =
        relay_groups s (order (group_blocks s.store s.room (s.store at) plaintext [] blocks)) now_ms
