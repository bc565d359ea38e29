-- ===== src/Ingress/Gate.antt =====
-- src/transport/udp/ingress.rs (`handle_srtp`, `prepare_fanout_payload`): which bytes of a publisher's
-- packet go on, by the mode of the room, the floor and the rewriters.
use oxlens_sfu_server.Prelude.{
  ℕ, ◌≤◌, ◌<◌, String, ◌≡◌, refl, ◌≢◌, ◌⊎◌, inl, inr, ◌∙◌, sym, ap, subst, Bool, true, false, not,
  ◌&&◌, Option, none, some, List, arith, same, same_iff, same_self, lookup, length, drop, byte_at,
  ◌%◌, read16, read32, u32_mod, if◌then◌else◌,
}
use oxlens_sfu_server.Floor.{current_speaker}
use oxlens_sfu_server.Ptt
use oxlens_sfu_server.Ptt.{
  PttRewriter, RewriteState, RewriteResult, ok, skip, rewrite_accepted, virtual_seq, virtual_ts,
  begin_stream, is_speaker,
}
use oxlens_sfu_server.Ptt.Gate.{rewrite-passes}
use oxlens_sfu_server.Ptt.Output.{rewrite_header-Rewritten}
use oxlens_sfu_server.Terminator.{Float64}
use oxlens_sfu_server.Rtcp.Header.{RtpHeader, is_audio_pt, is_video_pt}
use oxlens_sfu_server.Participant.{Participant}
use oxlens_sfu_server.Room.{Pointer, Room, conference, ptt}
use oxlens_sfu_server.Room.Sound.{IsSound}
use oxlens_sfu_server.FloorOps.Answers.{IsSynced}
use oxlens_sfu_server.Ingress.Shared.{Clock, Scene}
use oxlens_sfu_server.Ingress.Payload.{
  holds_floor, is_keyframe, rewrite_ptt, payload_of, payload_in, prepare_fanout_payload,
}
use oxlens_sfu_server.Ingress.Forwarding.{
  Gets, packet, noted, noted-identity, relay_rtp-none, relay_rtp-some,
}
use oxlens_sfu_server.Ingress.Retyped.{Retyped, normalize_pt-Retyped}
use oxlens_sfu_server.Ingress.{relay_rtp}

-- A packet that is let through, under the virtual SSRC.
abbrev OnVirtual : PttRewriter → List ℕ → RewriteState × List ℕ × RewriteResult → Type 0
OnVirtual w buf (s, out, result) =
    (result ≡ ok) × (read32 out 8 ≡ w.virtual_ssrc) × (drop 12 out ≡ drop 12 buf)

rewrite_accepted-OnVirtual :
    (w : PttRewriter) (s : RewriteState) (buf : List ℕ) (now : ℕ)
    → 12 ≤ length buf
    → w.virtual_ssrc < u32_mod
    → OnVirtual w buf (rewrite_accepted w s buf now)
unfolding rewrite_accepted
rewrite_accepted-OnVirtual w s buf now long fits =
    let first = s.awaiting_first_packet in
    let t = if first then begin_stream w s (read16 buf 2) (read32 buf 4) now else s in
    let h =
      rewrite_header-Rewritten w (virtual_seq t (read16 buf 2)) (virtual_ts t (read32 buf 4))
        (first && not w.require_keyframe) buf long fits (omega arith) (omega arith) in
    (refl, h.ssrc_written, h.rest_kept)

rewrite-OnVirtual :
    (w : PttRewriter) (s : RewriteState) (buf : List ℕ) (sender : String) (key : Bool) (now : ℕ)
    → 12 ≤ length buf
    → w.virtual_ssrc < u32_mod
    → s.speaker ≡ some sender
    → (s.pending_keyframe ≡ false) ⊎ (key ≡ true)
    → OnVirtual w buf (Ptt.rewrite w s buf sender key now)
rewrite-OnVirtual w s buf sender key now long fits mine free =
    subst (OnVirtual w buf) (sym (rewrite-passes w s buf sender key now long mine free))
      (rewrite_accepted-OnVirtual w (record s { pending_keyframe = false }) buf now long fits)

-- The virtual stream of a packet's kind.
abbrev pub rewriter_of : Room → RtpHeader → PttRewriter
rewriter_of r hdr = if is_audio_pt hdr.pt then r.audio_rewriter else r.video_rewriter

-- Audio, or a video packet that needs no keyframe or is one; the audio rewriter waits for none.
abbrev pub IsPlayable : Room → List ℕ → RtpHeader → Type 0
IsPlayable r plaintext hdr =
    ((is_audio_pt hdr.pt ≡ true) × (r.audio_state.pending_keyframe ≡ false))
    ⊎ ((is_audio_pt hdr.pt ≡ false)
        × (is_video_pt hdr.pt ≡ true)
        × ((r.video_state.pending_keyframe ≡ false) ⊎ (is_keyframe hdr plaintext ≡ true)))

rewrite_ptt-OnVirtual :
    (r : Room) (plaintext : List ℕ) (hdr : RtpHeader) (user_id : String) (now : ℕ)
    → 12 ≤ length plaintext
    → (rewriter_of r hdr).virtual_ssrc < u32_mod
    → r.audio_state.speaker ≡ some user_id
    → r.video_state.speaker ≡ some user_id
    → IsPlayable r plaintext hdr
    → let out = rewrite_ptt r plaintext hdr user_id now in
      (out.2 ≡ ok)
      × (read32 out.1 8 ≡ (rewriter_of r hdr).virtual_ssrc)
      × (drop 12 out.1 ≡ drop 12 plaintext)
unfolding rewrite_ptt
rewrite_ptt-OnVirtual r plaintext hdr user_id now long fits heard seen (inl (audio, free)) =
    rw audio (
      rewrite-OnVirtual r.audio_rewriter r.audio_state plaintext user_id false now long
        (subst (λ b. (if b then r.audio_rewriter else r.video_rewriter).virtual_ssrc < u32_mod)
          audio fits)
        heard (inl free))
rewrite_ptt-OnVirtual r plaintext hdr user_id now long fits heard seen (inr (other, video, free)) =
    rw (other, video)
      (rewrite-OnVirtual r.video_rewriter r.video_state plaintext user_id
        (is_keyframe hdr plaintext) now long
        (subst (λ b. (if b then r.audio_rewriter else r.video_rewriter).virtual_ssrc < u32_mod)
          other fits)
        seen free)

holds_floor_not :
    (o : Option String) (user_id : String) → o ≢ some user_id → holds_floor o user_id ≡ false
unfolding holds_floor
holds_floor_not none user_id other = refl
holds_floor_not (some speaker) user_id other =
    ground (arith, same_iff speaker user_id, λ (e : speaker ≡ user_id). other (ap some e))

module _ {F : Type 0} where
  prepare-conference :
      (p : Participant F) (r : Room) (plaintext : List ℕ) (hdr : RtpHeader) (now : ℕ)
      → r.mode ≡ conference
      → (prepare_fanout_payload p r plaintext hdr now).bytes ≡ some plaintext
  unfolding prepare_fanout_payload payload_in
  prepare-conference p r plaintext hdr now in_mode =
      ap (λ m. (payload_in m p r plaintext hdr now).bytes) in_mode

  prepare-gated :
      (p : Participant F) (r : Room) (plaintext : List ℕ) (hdr : RtpHeader) (now : ℕ)
      → r.mode ≡ ptt
      → holds_floor (current_speaker r.floor) p.user_id ≡ false
      → (prepare_fanout_payload p r plaintext hdr now).bytes ≡ none
  unfolding prepare_fanout_payload payload_in
  prepare-gated p r plaintext hdr now in_mode other =
      ap (λ m. (payload_in m p r plaintext hdr now).bytes) in_mode ∙ rw other refl

  pub prepare-holder :
      (p : Participant F) (r : Room) (plaintext : List ℕ) (hdr : RtpHeader) (now : ℕ)
      → r.mode ≡ ptt
      → current_speaker r.floor ≡ some p.user_id
      → (prepare_fanout_payload p r plaintext hdr now).bytes
        ≡ (payload_of p plaintext (rewrite_ptt r plaintext hdr p.user_id now)).bytes
  unfolding prepare_fanout_payload payload_in holds_floor
  prepare-holder p r plaintext hdr now in_mode mine =
      ap (λ m. (payload_in m p r plaintext hdr now).bytes) in_mode
      ∙ rw (ap (λ o. holds_floor o p.user_id) mine ∙ same_self p.user_id) refl

  payload_of-ok :
      (p : Participant F) (plaintext : List ℕ) (r : Room) (out : List ℕ) (result : RewriteResult)
      → result ≡ ok
      → (payload_of p plaintext (r, out, result)).bytes ≡ some out
  unfolding payload_of
  payload_of-ok p plaintext r out result is =
      ap (λ x. (payload_of p plaintext (r, out, x)).bytes) is

  pub payload_of-skip :
      (p : Participant F) (plaintext : List ℕ) (r : Room) (out : List ℕ) (result : RewriteResult)
      → result ≡ skip
      → (payload_of p plaintext (r, out, result)).bytes ≡ some plaintext
  unfolding payload_of
  payload_of-skip p plaintext r out result is =
      ap (λ x. (payload_of p plaintext (r, out, x)).bytes) is

  module _ (f : Float64 F) (s : Scene F) (at : Pointer) (drawn : ℕ) (c : Clock)
      (plaintext : List ℕ) where
    abbrev pub sent : List ℕ
    sent = (packet f s at drawn c plaintext).0

    abbrev pub hdr : RtpHeader
    hdr = (packet f s at drawn c plaintext).1

    abbrev pub sender : Participant F
    sender = noted f s at drawn c plaintext

    pub sender-user_id : sender.user_id ≡ (s.store at).user_id
    sender-user_id = ap (λ i. i.0) (noted-identity f s at drawn c plaintext)

    -- In a push-to-talk room, the packet of a participant who does not hold the floor changes nobody
    -- else: nothing of it reaches any queue.
    pub relay_rtp-gated :
        (q : Pointer)
        → s.room.mode ≡ ptt
        → current_speaker s.room.floor ≢ some (s.store at).user_id
        → q ≢ at
        → (relay_rtp f s at drawn c plaintext).store q ≡ s.store q
    relay_rtp-gated q in_mode other ne =
        relay_rtp-none f s at drawn c plaintext q
          (prepare-gated sender s.room sent hdr c.instant in_mode (
            ap (holds_floor (current_speaker s.room.floor)) sender-user_id
            ∙ holds_floor_not (current_speaker s.room.floor) (s.store at).user_id other))
          ne

    -- In a conference room with right indices, where the packet is not video of a simulcast and has
    -- a whole header: each other member that is ready gets the packet byte for byte as it came, its
    -- marker included, but for the payload type, which is the server's for the sender's codec
    -- (`ServerPt`) and is the one that the header says; a member that is not ready is not touched.
    pub relay_rtp-conference :
        (u : String) (q : Pointer)
        → s.room.mode ≡ conference
        → IsSound s.store s.room
        → 12 ≤ length plaintext
        → (s.room.simulcast_enabled && is_video_pt hdr.pt) ≡ false
        → lookup u s.room.participants ≡ some q
        → same u (s.store at).user_id ≡ false
        → Retyped (s.store at).tracks plaintext sent
          × (hdr.pt ≡ byte_at sent 1 % 128)
          × ((relay_rtp f s at drawn c plaintext).store q ≡ Gets (s.store q) sent)
    relay_rtp-conference u q in_mode v long plain found other =
        let retyped = normalize_pt-Retyped (s.store at).tracks plaintext long in
        (
          retyped.0,
          retyped.1,
          relay_rtp-some f s at drawn c plaintext sent u q
              (prepare-conference sender s.room sent hdr c.instant in_mode) v plain found other,
        )

    -- In a push-to-talk room with right indices, whose rewriters are on the speaker who holds the
    -- floor, and without simulcast: a packet of his with a whole header, audio or a video packet
    -- that needs no keyframe or is one, reaches each other member that is ready as one and the same
    -- packet, under the virtual SSRC of its kind and with all behind the fixed header as it came.
    pub relay_rtp-virtual :
        (u : String) (q : Pointer)
        → s.room.mode ≡ ptt
        → IsSound s.store s.room
        → s.room.simulcast_enabled ≡ false
        → IsSynced s.room
        → current_speaker s.room.floor ≡ some (s.store at).user_id
        → 12 ≤ length sent
        → (rewriter_of s.room hdr).virtual_ssrc < u32_mod
        → IsPlayable s.room sent hdr
        → lookup u s.room.participants ≡ some q
        → same u (s.store at).user_id ≡ false
        → let out = (rewrite_ptt s.room sent hdr (s.store at).user_id c.instant).1 in
          (read32 out 8 ≡ (rewriter_of s.room hdr).virtual_ssrc)
          × (drop 12 out ≡ drop 12 sent)
          × ((relay_rtp f s at drawn c plaintext).store q ≡ Gets (s.store q) out)
    relay_rtp-virtual u q in_mode v plain synced mine long fits playable found other =
        let me = (s.store at).user_id in
        let w =
          rewrite_ptt-OnVirtual s.room sent hdr me c.instant long fits (synced.0 ∙ mine)
            (synced.1 ∙ mine) playable in
        let out = rewrite_ptt s.room sent hdr me c.instant in
        (
          w.1,
          w.2,
          relay_rtp-some f s at drawn c plaintext out.1 u q
              (prepare-holder sender s.room sent hdr c.instant in_mode
                  (mine ∙ ap some (sym sender-user_id))
                ∙ ap (λ x. (payload_of sender sent (rewrite_ptt s.room sent hdr x c.instant)).bytes)
                    sender-user_id
                ∙ payload_of-ok sender sent out.0 out.1 out.2 w.0)
              v (ap (λ b. b && is_video_pt hdr.pt) plain) found other,
        )
