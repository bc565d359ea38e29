-- ===== src/Ingress/Unswitched.antt =====
-- src/transport/udp/ingress.rs (`prepare_fanout_payload`) and src/signaling/handler/room_ops.rs: what
-- goes on of a speaker's packets where the rewriters are on nobody, as after the leave of another.
use oxlens_sfu_server.Prelude.{
  ℕ, String, ◌≡◌, refl, ◌∙◌, sym, ap, inl, inr, Bool-cases, Bool, false, ◌&&◌, Option, none, some,
  List, ◌∷◌, arith, same, lookup,
}
use oxlens_sfu_server.Floor.Queue.{QueueEntry, retain_others}
use oxlens_sfu_server.Floor.{current_speaker}
use oxlens_sfu_server.Ptt
use oxlens_sfu_server.Ptt.{PttRewriter, RewriteState, skip, is_speaker}
use oxlens_sfu_server.Terminator.{Float64}
use oxlens_sfu_server.Rtcp.Header.{RtpHeader, is_audio_pt, is_video_pt}
use oxlens_sfu_server.Room.{Pointer, Store, Room, ptt}
use oxlens_sfu_server.Room.Sound.{IsSound}
use oxlens_sfu_server.FloorOps.{leave_floor}
use oxlens_sfu_server.FloorOps.Laws.{leave_floor-mutes}
use oxlens_sfu_server.Ingress.Shared.{Clock, Scene}
use oxlens_sfu_server.Ingress.Payload.{is_keyframe, rewrite_ptt}
use oxlens_sfu_server.Ingress.Forwarding.{Gets, relay_rtp-some}
use oxlens_sfu_server.Ingress.Gate.{
  prepare-holder, payload_of-skip, sender-user_id, sent, hdr, sender,
}
use oxlens_sfu_server.Ingress.{relay_rtp}

is_speaker-none :
    (s : RewriteState) (o : Option String) (user_id : String)
    → s.speaker ≡ o
    → o ≡ none
    → is_speaker s user_id ≡ false
is_speaker-none s none user_id e silent = ground arith
is_speaker-none s (some v) user_id e silent = absurd (ground arith)

rewrite-skip :
    (w : PttRewriter) (s : RewriteState) (buf : List ℕ) (user_id : String) (key : Bool) (now : ℕ)
    → s.speaker ≡ none
    → (Ptt.rewrite w s buf user_id key now).2 ≡ skip
unfolding Ptt.rewrite
rewrite-skip w s buf user_id key now silent =
    ground (arith, is_speaker-none s s.speaker user_id refl silent)

rewrite_ptt-skip :
    (r : Room) (plaintext : List ℕ) (hdr : RtpHeader) (user_id : String) (now : ℕ)
    → r.audio_state.speaker ≡ none
    → r.video_state.speaker ≡ none
    → (rewrite_ptt r plaintext hdr user_id now).2 ≡ skip
unfolding rewrite_ptt
rewrite_ptt-skip r plaintext hdr user_id now silent dark = elim (Bool-cases (is_audio_pt hdr.pt)) [
  | inl audio ↦
      rw audio (rewrite-skip r.audio_rewriter r.audio_state plaintext user_id false now silent)
  | inr other ↦ elim (Bool-cases (is_video_pt hdr.pt)) [
    | inl video ↦
        rw (other, video)
          (rewrite-skip r.video_rewriter r.video_state plaintext user_id (is_keyframe hdr plaintext)
            now dark)
    | inr neither ↦ rw (other, neither) refl
  ]
]

module _ {F : Type 0} where
  relay_rtp-unswitched :
      (f : Float64 F) (s : Scene F) (at : Pointer) (drawn : ℕ) (c : Clock) (plaintext : List ℕ)
      (u : String) (q : Pointer)
      → s.room.mode ≡ ptt
      → IsSound s.store s.room
      → s.room.simulcast_enabled ≡ false
      → current_speaker s.room.floor ≡ some (s.store at).user_id
      → s.room.audio_state.speaker ≡ none
      → s.room.video_state.speaker ≡ none
      → lookup u s.room.participants ≡ some q
      → same u (s.store at).user_id ≡ false
      → (relay_rtp f s at drawn c plaintext).store q
        ≡ Gets (s.store q) (sent f s at drawn c plaintext)
  relay_rtp-unswitched f s at drawn c plaintext u q in_mode v plain mine silent dark found other =
      let p = sender f s at drawn c plaintext in
      let packet = sent f s at drawn c plaintext in
      let h = hdr f s at drawn c plaintext in
      let named = sender-user_id f s at drawn c plaintext in
      let out = rewrite_ptt s.room packet h p.user_id c.instant in
      relay_rtp-some f s at drawn c plaintext packet u q
        (prepare-holder p s.room packet h c.instant in_mode (mine ∙ ap some (sym named))
          ∙ payload_of-skip p packet out.0 out.1 out.2
              (rewrite_ptt-skip s.room packet h p.user_id c.instant silent dark))
        v (ap (λ b. b && is_video_pt h.pt) plain) found other

  -- The defect: when the speaker of a push-to-talk room has left while somebody else waited, then the
  -- next one holds the floor, but both rewriters are on nobody. In a room with right indices that is
  -- as the leave has left it, each packet of the new speaker still passes the gate, and reaches
  -- each other member that is ready just as it came, but for the payload type: under the speaker's
  -- own SSRC and numbers, not those of the virtual stream.
  pub leave_then_relay :
      (st : Store F) (user_id : String) (clock now : ℕ) (r : Room) (next : QueueEntry)
      (rest : List QueueEntry) (f : Float64 F) (s : Scene F) (at : Pointer) (drawn : ℕ) (c : Clock)
      (plaintext : List ℕ) (u : String) (q : Pointer)
      → r.mode ≡ ptt
      → current_speaker r.floor ≡ some user_id
      → retain_others user_id r.floor.queue ≡ next ∷ rest
      → s.room ≡ (leave_floor st user_id clock now r).room
      → s.room.mode ≡ ptt
      → IsSound s.store s.room
      → s.room.simulcast_enabled ≡ false
      → (s.store at).user_id ≡ next.user_id
      → lookup u s.room.participants ≡ some q
      → same u next.user_id ≡ false
      → (current_speaker s.room.floor ≡ some (s.store at).user_id)
        × ((relay_rtp f s at drawn c plaintext).store q
            ≡ Gets (s.store q) (sent f s at drawn c plaintext))
  leave_then_relay st user_id clock now r next rest f s at drawn c plaintext u q in_ptt speaks waits
        left in_mode v plain named found other =
      let m = leave_floor-mutes st user_id clock now r next rest in_ptt speaks waits in
      let holds : current_speaker s.room.floor ≡ some (s.store at).user_id =
        ap (λ x. current_speaker x.floor) left ∙ m.0 ∙ ap some (sym named) in
      (
        holds,
        relay_rtp-unswitched f s at drawn c plaintext u q in_mode v plain holds
            (ap (λ x. x.audio_state.speaker) left ∙ m.1)
            (ap (λ x. x.video_state.speaker) left ∙ m.2) found (ap (same u) named ∙ other),
      )
