-- ===== src/Ingress/KeptReports.antt =====
-- src/transport/udp/ingress.rs: the relay of a publisher's RTCP keeps the participants and the indices.
use oxlens_sfu_server.Prelude.{
  ℕ, String, ◌≡◌, refl, ◌∙◌, inl, inr, Bool-cases, Bool, true, false, not, ◌&&◌, List, [], ◌∷◌,
  ◌++◌, arith, if◌then◌else◌, same,
}
use oxlens_sfu_server.Rtcp.Compound.{assemble_compound}
use oxlens_sfu_server.Participant.{Participant, rtcp, try_send, ensure_simulcast_video_ssrc}
use oxlens_sfu_server.Room.{Pointer, Store, Room, RoomMode, conference, ptt, write}
use oxlens_sfu_server.Room.Latch.{write-keeps}
use oxlens_sfu_server.FloorOps.Effects.{is_video}
use oxlens_sfu_server.Ingress.Shared.{Scene}
use oxlens_sfu_server.Ingress.SenderReports.{
  build_sr_translation, has_track, word_at, translate_all, reports_for, deliver_rtcp, relay_to,
  relay_to_all, may_relay, relay_publish_rtcp_translated,
}
use oxlens_sfu_server.Ingress.Kept.{
  identity, Kept, Kept-refl, Kept-if, Kept-store, identity-if, try_send-identity,
}

module _ {F : Type 0} where
  ensure-identity :
      (p : Participant F) (drawn : ℕ)
      → identity (ensure_simulcast_video_ssrc p drawn).0 ≡ identity p
  unfolding ensure_simulcast_video_ssrc
  ensure-identity p drawn = ground arith

  build_sr_translation-identity :
      (sr_block : List ℕ) (sender target : Participant F) (r : Room) (drawn : ℕ) (m : RoomMode)
      → identity (build_sr_translation sr_block sender target r drawn m).0 ≡ identity sender
  unfolding build_sr_translation
  build_sr_translation-identity sr_block sender target r drawn ptt = refl
  build_sr_translation-identity sr_block sender target r drawn conference =
      elim (Bool-cases (
        r.simulcast_enabled
        && has_track (λ t. is_video t.kind) (word_at sr_block 4) sender.tracks)) [
          | inl simulcast ↦ rw simulcast (ensure-identity sender drawn)
          | inr plain ↦ rw plain refl
        ]

  translate_all-identity :
      (srs : List (List ℕ)) (sender target : Participant F) (r : Room) (drawn : ℕ)
      → identity (translate_all srs sender target r drawn).0 ≡ identity sender
  unfolding translate_all
  translate_all-identity [] sender target r drawn = refl
  translate_all-identity (sr ∷ srs) sender target r drawn =
      let sender2 = (build_sr_translation sr sender target r drawn r.mode).0 in
      translate_all-identity srs sender2 target r drawn
      ∙ build_sr_translation-identity sr sender target r drawn r.mode

  reports_for-identity :
      (m : RoomMode) (srs : List (List ℕ)) (sender target : Participant F) (r : Room) (drawn : ℕ)
      → identity (reports_for m srs sender target r drawn).0 ≡ identity sender
  reports_for-identity ptt srs sender target r drawn = refl
  reports_for-identity conference srs sender target r drawn =
      translate_all-identity srs sender target r drawn

  deliver_rtcp-identity :
      (p : Participant F) (blocks : List (List ℕ)) → identity (deliver_rtcp p blocks) ≡ identity p
  unfolding deliver_rtcp
  deliver_rtcp-identity p [] = refl
  deliver_rtcp-identity p (b ∷ bs) =
      let packet = rtcp (assemble_compound (b ∷ bs)) in
      let q = try_send p packet in
      identity-if p _ q.0 q.1 (try_send-identity p packet) (try_send-identity p packet)

  module _ (at : Pointer) (srs relays : List (List ℕ)) (drawn : ℕ) where
    relay_to-identity :
        (st : Store F) (r : Room) (q p : Pointer)
        → identity (relay_to at srs relays drawn st r q p) ≡ identity (st p)
    unfolding relay_to
    relay_to-identity st r q p =
        let got = reports_for r.mode srs (st at) (st q) r drawn in
        let st2 = write st at got.0 in
        write-keeps identity st2 q p (deliver_rtcp (st2 q) (got.1 ++ relays))
          (deliver_rtcp-identity (st2 q) (got.1 ++ relays))
        ∙ write-keeps identity st at p got.0
            (reports_for-identity r.mode srs (st at) (st q) r drawn)

    relay_if-identity :
        (st : Store F) (r : Room) (q p : Pointer) (b : Bool)
        → identity ((if b then relay_to at srs relays drawn st r q else st) p) ≡ identity (st p)
    relay_if-identity st r q p true = relay_to-identity st r q p
    relay_if-identity st r q p false = refl

    relay_to_all-identity :
        (user_id : String) (r : Room) (st : Store F) (es : List (String × Pointer)) (p : Pointer)
        → identity (relay_to_all at srs relays drawn user_id r st es p) ≡ identity (st p)
    unfolding relay_to_all
    relay_to_all-identity user_id r st [] p = refl
    relay_to_all-identity user_id r st (e ∷ es) p =
        let wanted = not (same e.0 user_id) && (st e.1).subscribe.is_ready in
        relay_to_all-identity user_id r
          (if wanted then relay_to at srs relays drawn st r e.1 else st) es p
        ∙ relay_if-identity st r e.1 p wanted

    pub relay_publish-Kept :
        (s : Scene F) → Kept s (relay_publish_rtcp_translated at srs relays drawn s)
    unfolding relay_publish_rtcp_translated
    relay_publish-Kept s =
        Kept-if (may_relay s.room.mode s.room (s.store at).user_id)
          (Kept-store s _ s.effects
            (relay_to_all-identity (s.store at).user_id s.room s.store s.room.participants))
          (Kept-refl s)
