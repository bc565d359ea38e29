-- ===== src/Ingress/Budget.antt =====
-- src/transport/udp/ingress.rs (`handle_nack_block`): what a NACK brings its subscriber, and how much.
use oxlens_sfu_server.Prelude.{
  ℕ, ◌≡◌, refl, ◌∙◌, sym, ap, subst, inl, inr, Bool-cases, Option, none, some, List, [], ◌∷◌, arith,
  length, and_then, All, All-imply,
}
use oxlens_sfu_server.Rtcp.Nack.{NackItem, expand_nack}
use oxlens_sfu_server.Participant.TrackList.{find_ssrc}
use oxlens_sfu_server.Participant.{Participant, EgressPacket, rtp, try_send}
use oxlens_sfu_server.Room.{Pointer, Store, write, find_by_track_ssrc}
use oxlens_sfu_server.Room.Latch.{write-keeps, write_self}
use oxlens_sfu_server.Ingress.Shared.{Scene, set_member}
use oxlens_sfu_server.Ingress.Nack.{
  fetch_rtx, send_rtx, send_rtxs, answer_nack, with_rtx, with_publisher, handle_item, lookup_of,
  gives_up, suppress_nacks, is_suppressed,
}
use oxlens_sfu_server.Ingress.Retransmission.{
  IsFetched, Resent, Steady, Resent-Steady, Resent-then, send_rtxs-Resent, fetch_rtx-IsFetched,
  fetch_rtx-keeps,
}

module _ {F : Type 0} where
  send_rtx-rtp_cache :
      (p : Participant F) (packet : List ℕ) → (send_rtx p packet).rtp_cache ≡ p.rtp_cache
  unfolding send_rtx try_send
  send_rtx-rtp_cache p packet = ground arith

  send_rtxs-rtp_cache :
      (p : Participant F) (packets : List (List ℕ)) → (send_rtxs p packets).rtp_cache ≡ p.rtp_cache
  unfolding send_rtxs
  send_rtxs-rtp_cache p [] = refl
  send_rtxs-rtp_cache p (packet ∷ packets) =
      send_rtxs-rtp_cache (send_rtx p packet) packets ∙ send_rtx-rtp_cache p packet

  -- What a step leaves of a store: the subscriber has only got packets that satisfy `Q`, and every
  -- cache is as it was.
  pub record Answers (Q : EgressPacket → Type 0) (at : Pointer) (st t : Store F) : Type 0 where
    pub resent : Resent Q (st at) (t at)
    pub caches : (q : Pointer) → (t q).rtp_cache ≡ (st q).rtp_cache

  pub Answers-none : {Q : EgressPacket → Type 0} (at : Pointer) (st : Store F) → Answers Q at st st
  Answers-none at st = record { resent = Resent-Steady (refl, refl); caches = λ q. refl }

  pub Answers-then :
      {Q : EgressPacket → Type 0} {at : Pointer} {st t w : Store F}
      → Answers Q at st t
      → Answers Q at t w
      → Answers Q at st w
  Answers-then a b = record {
    resent = Resent-then a.resent b.resent;
    caches = λ q. b.caches q ∙ a.caches q;
  }

  pub Answers-imply :
      {P Q : EgressPacket → Type 0} {at : Pointer} {st t : Store F}
      → ((packet : EgressPacket) → P packet → Q packet)
      → Answers P at st t
      → Answers Q at st t
  Answers-imply {P = P} {Q = Q} f a = record {
    resent = record {
      sent = a.resent.sent;
      grows = a.resent.grows;
      all = All-imply P Q a.resent.sent f a.resent.all;
      paid = a.resent.paid;
    };
    caches = a.caches;
  }

  -- A write that keeps the queue, the budget and the cache.
  Answers-write :
      {Q : EgressPacket → Type 0} (at : Pointer) (st : Store F) (p : Pointer) (v : Participant F)
      → Steady (st p) v
      → v.rtp_cache ≡ (st p).rtp_cache
      → Answers Q at st (write st p v)
  Answers-write at st p v e c = record {
    resent = Resent-Steady (
      write-keeps (λ x. x.egress) st p at v e.0,
      write-keeps (λ x. x.rtx_budget_used) st p at v e.1,
    );
    caches = λ q. write-keeps (λ x. x.rtp_cache) st p q v c;
  }

  Answers-send :
      {Q : EgressPacket → Type 0} (at : Pointer) (st : Store F) (packets : List (List ℕ))
      → All (λ packet. Q (rtp packet)) packets
      → Answers Q at st (write st at (send_rtxs (st at) packets))
  Answers-send {Q = Q} at st packets all =
      let v = send_rtxs (st at) packets in
      record {
        resent =
            subst (Resent Q (st at)) (sym (write_self st at v))
              (send_rtxs-Resent (st at) packets all);
        caches =
            λ q. write-keeps (λ x. x.rtp_cache) st at q v (send_rtxs-rtp_cache (st at) packets);
      }

  answer_nack-Answers :
      {Q : EgressPacket → Type 0} (s : Scene F) (at publisher : Pointer)
      (now_ms lookup_ssrc asked : ℕ) (packets : List (List ℕ))
      → All (λ packet. Q (rtp packet)) packets
      → Answers Q at s.store (answer_nack s at publisher now_ms lookup_ssrc asked packets).store
  unfolding answer_nack
  answer_nack-Answers s at publisher now_ms lookup_ssrc asked packets all =
      let v = suppress_nacks (s.store at) now_ms in
      elim (Bool-cases (gives_up asked (length packets))) [
        | inl many ↦ rw many (
            Answers-then (Answers-write at s.store at v (refl, refl) refl)
              (Answers-send at (write s.store at v) packets all))
        | inr few ↦ rw few (Answers-send at s.store packets all)
      ]

  with_rtx-Answers :
      {Q : EgressPacket → Type 0} (s : Scene F) (at publisher : Pointer) (now_ms lookup_ssrc : ℕ)
      (seqs : List ℕ) (o : Option ℕ)
      → ((packet : EgressPacket) → IsFetched (s.store publisher).rtp_cache seqs packet → Q packet)
      → Answers Q at s.store (with_rtx s at publisher now_ms lookup_ssrc seqs o).store
  with_rtx-Answers s at publisher now_ms lookup_ssrc seqs none good = Answers-none at s.store
  with_rtx-Answers {Q = Q} s at publisher now_ms lookup_ssrc seqs (some rtx_ssrc) good =
      let p = s.store publisher in
      let got = fetch_rtx p rtx_ssrc seqs in
      let kept = fetch_rtx-keeps p rtx_ssrc seqs in
      Answers-then
        (Answers-write at s.store publisher got.0
          (ap (λ x. x.egress) kept.1, ap (λ x. x.rtx_budget_used) kept.1)
          (ap (λ x. x.rtp_cache) kept.1))
        (answer_nack-Answers (set_member s publisher got.0) at publisher now_ms lookup_ssrc
          (length seqs) got.1
          (All-imply (λ packet. IsFetched p.rtp_cache seqs (rtp packet)) (λ packet. Q (rtp packet))
            got.1 (λ packet. good (rtp packet)) (fetch_rtx-IsFetched p rtx_ssrc seqs)))

  with_publisher-Answers :
      {Q : EgressPacket → Type 0} (s : Scene F) (at : Pointer) (now_ms lookup_ssrc : ℕ)
      (seqs : List ℕ) (o : Option Pointer)
      → ((p : Pointer) (packet : EgressPacket)
          → o ≡ some p
          → IsFetched (s.store p).rtp_cache seqs packet
          → Q packet)
      → Answers Q at s.store (with_publisher s at now_ms lookup_ssrc seqs o).store
  with_publisher-Answers s at now_ms lookup_ssrc seqs none good = Answers-none at s.store
  with_publisher-Answers s at now_ms lookup_ssrc seqs (some p) good =
      elim (Bool-cases (is_suppressed (s.store p).rtp_gap_suppress_until_ms now_ms)) [
        | inl gap ↦ rw gap (Answers-none at s.store)
        | inr none_yet ↦ rw none_yet (
            with_rtx-Answers s at p now_ms lookup_ssrc seqs
              (and_then (find_ssrc lookup_ssrc (s.store p).tracks) (λ t. t.rtx_ssrc))
              (λ packet. good p packet refl))
      ]

  -- The publisher that the item leads to, and a packet that its cache has under a number that the
  -- item leads to.
  pub record IsAnswer (s : Scene F) (at : Pointer) (item : NackItem) (packet : EgressPacket)
      : Type 0 where
    pub publisher : Pointer
    pub found :
        find_by_track_ssrc s.store s.room
          (lookup_of s.store s.room (s.store at) item.media_ssrc (expand_nack item.pid item.blp)).0
        ≡ some publisher
    pub fetched :
        IsFetched
          (s.store publisher).rtp_cache
          (lookup_of s.store s.room (s.store at) item.media_ssrc (expand_nack item.pid item.blp)).1
          packet

  -- One item of a NACK: whatever it puts into its subscriber's queue, behind what was there, is a
  -- retransmission of a packet in the cache of the publisher that the item's SSRC leads to, under
  -- one of the numbers that the item's lost numbers lead to. There are at most as many as the
  -- budget has left, and the budget pays for them. No cache changes.
  pub handle_item-Answers :
      (s : Scene F) (at : Pointer) (now_ms : ℕ) (item : NackItem)
      → Answers (IsAnswer s at item) at s.store (handle_item s at now_ms item).store
  unfolding handle_item
  handle_item-Answers s at now_ms item =
      let lookup =
        lookup_of s.store s.room (s.store at) item.media_ssrc (expand_nack item.pid item.blp) in
      with_publisher-Answers s at now_ms lookup.0 lookup.1
        (find_by_track_ssrc s.store s.room lookup.0)
        (λ p packet found fetched. record { publisher = p; found = found; fetched = fetched })
