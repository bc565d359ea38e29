-- ===== src/Ingress/Escalation.antt =====
-- src/transport/udp/ingress.rs (`handle_nack_block`): all items of a NACK together, and the
-- suppression after too many misses.
use oxlens_sfu_server.Prelude.{
  ℕ, ◌+◌, ◌<◌, ◌≡◌, refl, ◌∙◌, ap, subst, inl, inr, Bool-cases, true, List, [], ◌∷◌, arith, length,
}
use oxlens_sfu_server.Rtcp.Nack.{NackItem, expand_nack, parse_rtcp_nack}
use oxlens_sfu_server.Participant.{Participant, EgressPacket, try_send}
use oxlens_sfu_server.Room.{Pointer, Store, write}
use oxlens_sfu_server.Room.Latch.{write_self}
use oxlens_sfu_server.Ingress.Shared.{Scene}
use oxlens_sfu_server.Ingress.Nack.{
  send_rtx, send_rtxs, answer_nack, handle_item, handle_items, handle_nack_block, lookup_of,
  gives_up, suppress_nacks, is_suppressed,
}
use oxlens_sfu_server.Ingress.Retransmission.{IsFetched}
use oxlens_sfu_server.Ingress.Budget.{
  Answers, Answers-none, Answers-then, Answers-imply, handle_item-Answers,
}

-- A retransmission of a packet in one of the caches of the store.
pub record IsKept {F : Type 0} (st : Store F) (packet : EgressPacket) : Type 0 where
  pub publisher : Pointer
  pub seqs : List ℕ
  pub fetched : IsFetched (st publisher).rtp_cache seqs packet

module _ {F : Type 0} where
  handle_items-Answers :
      (s : Scene F) (at : Pointer) (now_ms : ℕ) (items : List NackItem) (st : Store F)
      → ((q : Pointer) → (s.store q).rtp_cache ≡ (st q).rtp_cache)
      → Answers (IsKept st) at s.store (handle_items s at now_ms items).store
  unfolding handle_items
  handle_items-Answers s at now_ms [] st same = Answers-none at s.store
  handle_items-Answers s at now_ms (item ∷ items) st same =
      let first = handle_item-Answers s at now_ms item in
      Answers-then
        (Answers-imply
          (λ packet v. record {
            publisher = v.publisher;
            seqs =
                (lookup_of s.store s.room (s.store at) item.media_ssrc
                  (expand_nack item.pid item.blp)).1;
            fetched =
                subst
                  (λ c.
                    IsFetched c
                      (lookup_of s.store s.room (s.store at) item.media_ssrc
                        (expand_nack item.pid item.blp)).1
                      packet)
                  (same v.publisher) v.fetched;
          })
          first)
        (handle_items-Answers (handle_item s at now_ms item) at now_ms items st
          (λ q. first.caches q ∙ same q))

  -- A NACK puts nothing into its subscriber's queue but retransmissions of packets that caches of
  -- the store have, behind what was there; there are at most as many as the subscriber's budget has
  -- left, and the budget pays for them. No cache changes.
  pub handle_nack_block-Answers :
      (s : Scene F) (at : Pointer) (now_ms : ℕ) (nack_data : List ℕ)
      → Answers (IsKept s.store) at s.store (handle_nack_block s at now_ms nack_data).store
  unfolding handle_nack_block
  handle_nack_block-Answers s at now_ms nack_data =
      elim (Bool-cases (is_suppressed (s.store at).nack_suppress_until_ms now_ms)) [
        | inl stopped ↦ rw stopped (Answers-none at s.store)
        | inr heard ↦
            rw heard
              (handle_items-Answers s at now_ms (parse_rtcp_nack nack_data) s.store (λ q. refl))
      ]

  send_rtxs-nack_suppress_until_ms :
      (p : Participant F) (packets : List (List ℕ))
      → (send_rtxs p packets).nack_suppress_until_ms ≡ p.nack_suppress_until_ms
  unfolding send_rtxs send_rtx try_send
  send_rtxs-nack_suppress_until_ms p [] = refl
  send_rtxs-nack_suppress_until_ms p (packet ∷ packets) =
      send_rtxs-nack_suppress_until_ms (send_rtx p packet) packets ∙ ground arith

  answer_nack-suppresses :
      (s : Scene F) (at publisher : Pointer) (now_ms lookup_ssrc asked : ℕ)
      (packets : List (List ℕ))
      → gives_up asked (length packets) ≡ true
      → ((answer_nack s at publisher now_ms lookup_ssrc asked packets).store
          at).nack_suppress_until_ms
        ≡ now_ms + 5000
  unfolding answer_nack
  answer_nack-suppresses s at publisher now_ms lookup_ssrc asked packets many =
      let st = write s.store at (suppress_nacks (s.store at) now_ms) in
      rw many (
        ap (λ v. v.nack_suppress_until_ms) (write_self st at (send_rtxs (st at) packets))
        ∙ send_rtxs-nack_suppress_until_ms (st at) packets
        ∙ ap (λ v. v.nack_suppress_until_ms)
            (write_self s.store at (suppress_nacks (s.store at) now_ms)))

  suppressed_nack :
      (s : Scene F) (at : Pointer) (now_ms until : ℕ) (nack_data : List ℕ)
      → (s.store at).nack_suppress_until_ms ≡ until
      → is_suppressed until now_ms ≡ true
      → handle_nack_block s at now_ms nack_data ≡ s
  unfolding handle_nack_block
  suppressed_nack s at now_ms until nack_data e h = rw (ap (λ u. is_suppressed u now_ms) e ∙ h) refl

  -- If half of the packets asked for or more are missing from the cache, and one at least, then
  -- every NACK of this subscriber within the next five seconds changes nothing.
  pub escalate_then_nack :
      (s : Scene F) (at publisher : Pointer) (now_ms lookup_ssrc asked : ℕ)
      (packets : List (List ℕ)) (later : ℕ) (nack_data : List ℕ)
      → gives_up asked (length packets) ≡ true
      → later < now_ms + 5000
      → let t = answer_nack s at publisher now_ms lookup_ssrc asked packets in
        handle_nack_block t at later nack_data ≡ t
  escalate_then_nack s at publisher now_ms lookup_ssrc asked packets later nack_data many soon =
      suppressed_nack (answer_nack s at publisher now_ms lookup_ssrc asked packets) at later
        (now_ms + 5000) nack_data
        (answer_nack-suppresses s at publisher now_ms lookup_ssrc asked packets many) (ground arith)
