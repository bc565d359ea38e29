-- ===== src/Ingress/Retransmission.antt =====
-- src/transport/udp/ingress.rs: what a NACK puts into the queue of its subscriber.
use oxlens_sfu_server.Prelude.{
  ℕ, ◌+◌, ◌-◌, ◌≤◌, ◌≡◌, refl, ◌∙◌, sym, ap, inl, inr, Bool-cases, true, some, List, [], ◌∷◌, ◌++◌,
  append_assoc, append-nil, arith, leb, ltb, length, length-append, All, All-imply, Option-cases,
  All-append,
}
use oxlens_sfu_server.RtpCache
use oxlens_sfu_server.RtpCache.{RtpCache}
use oxlens_sfu_server.Rtcp.Nack.{names}
use oxlens_sfu_server.Rtcp.Rtx.{build_rtx_packet}
use oxlens_sfu_server.Participant.{
  Participant, EgressPacket, rtp, try_send, egress_queue_size, next_rtx_seq,
}
use oxlens_sfu_server.Ingress.Nack.{fetch_rtx, send_rtx, send_rtxs, rtx_budget}

-- The retransmission of a packet that the cache has under one of the numbers.
pub record IsFetched (cache : RtpCache) (seqs : List ℕ) (packet : EgressPacket) : Type 0 where
  pub seq : ℕ
  pub original : List ℕ
  pub rtx_ssrc : ℕ
  pub rtx_seq : ℕ
  pub asked : names seq seqs ≡ true
  pub cached : RtpCache.get cache seq ≡ some original
  pub built : packet ≡ rtp (build_rtx_packet original rtx_ssrc rtx_seq)

IsFetched-later :
    {cache : RtpCache} {seqs : List ℕ} {packet : EgressPacket} (s : ℕ)
    → IsFetched cache seqs packet
    → IsFetched cache (s ∷ seqs) packet
unfolding names
IsFetched-later s v = record {
  seq = v.seq;
  original = v.original;
  rtx_ssrc = v.rtx_ssrc;
  rtx_seq = v.rtx_seq;
  asked = ground (arith, v.asked);
  cached = v.cached;
  built = v.built;
}

module _ {F : Type 0} where
  -- A participant that only sends retransmissions: what is new in its queue, and its budget.
  pub record Resent (Q : EgressPacket → Type 0) (p q : Participant F) : Type 0 where
    pub sent : List EgressPacket
    pub grows : q.egress ≡ p.egress ++ sent
    pub all : All Q sent
    pub paid : length sent + (rtx_budget - q.rtx_budget_used) ≤ rtx_budget - p.rtx_budget_used

  -- The participant keeps its queue and its budget.
  abbrev pub Steady : Participant F → Participant F → Type 0
  Steady p q = (q.egress ≡ p.egress) × (q.rtx_budget_used ≡ p.rtx_budget_used)

  pub Resent-Steady : {Q : EgressPacket → Type 0} {p q : Participant F} → Steady p q → Resent Q p q
  Resent-Steady {p = p} e = record {
    sent = [];
    grows = e.0 ∙ sym (append-nil p.egress);
    all = tt;
    paid = omega (arith, e.1);
  }

  pub Resent-then :
      {Q : EgressPacket → Type 0} {p q r : Participant F}
      → Resent Q p q
      → Resent Q q r
      → Resent Q p r
  Resent-then {Q = Q} {p = p} a b = record {
    sent = a.sent ++ b.sent;
    grows = b.grows ∙ ap (λ x. x ++ b.sent) a.grows ∙ append_assoc p.egress a.sent b.sent;
    all = All-append Q a.sent b.sent a.all b.all;
    paid = omega (arith, length-append a.sent b.sent, a.paid, b.paid);
  }

  send_rtx-Resent :
      {Q : EgressPacket → Type 0} (p : Participant F) (packet : List ℕ)
      → Q (rtp packet)
      → Resent Q p (send_rtx p packet)
  unfolding send_rtx try_send
  send_rtx-Resent p packet good = elim (Bool-cases (leb rtx_budget p.rtx_budget_used)) [
    | inl spent ↦ rw spent (record {
      sent = [];
      grows = sym (append-nil p.egress);
      all = tt;
      paid = ground (arith, spent);
    })
    | inr left ↦ elim (Bool-cases (ltb (length p.egress) egress_queue_size)) [
      | inl fits ↦
          rw (left, fits)
            (record {
              sent = rtp packet ∷ [];
              grows = refl;
              all = (good, tt);
              paid = ground (arith, left);
            })
      | inr full ↦
          rw (left, full)
            (record {
              sent = [];
              grows = sym (append-nil p.egress);
              all = tt;
              paid = ground (arith, left);
            })
    ]
  ]

  pub send_rtxs-Resent :
      {Q : EgressPacket → Type 0} (p : Participant F) (packets : List (List ℕ))
      → All (λ packet. Q (rtp packet)) packets
      → Resent Q p (send_rtxs p packets)
  unfolding send_rtxs
  send_rtxs-Resent p [] all = Resent-Steady (refl, refl)
  send_rtxs-Resent p (packet ∷ packets) all =
      Resent-then (send_rtx-Resent p packet all.0)
        (send_rtxs-Resent (send_rtx p packet) packets all.1)

  -- What is fetched is in the cache under one of the numbers.
  pub fetch_rtx-IsFetched :
      (p : Participant F) (rtx_ssrc : ℕ) (seqs : List ℕ)
      → All (λ packet. IsFetched p.rtp_cache seqs (rtp packet)) (fetch_rtx p rtx_ssrc seqs).1
  unfolding fetch_rtx names
  fetch_rtx-IsFetched p rtx_ssrc [] = tt
  fetch_rtx-IsFetched p rtx_ssrc (seq ∷ seqs) = elim (Option-cases (RtpCache.get p.rtp_cache seq)) [
    | inl miss ↦
        rw (miss, All, fetch_rtx)
          (All-imply (λ packet. IsFetched p.rtp_cache seqs (rtp packet))
            (λ packet. IsFetched p.rtp_cache (seq ∷ seqs) (rtp packet))
            (fetch_rtx p rtx_ssrc seqs).1 (λ packet v. IsFetched-later seq v)
            (fetch_rtx-IsFetched p rtx_ssrc seqs))
    | inr (original, hit) ↦
        let q = (next_rtx_seq p).0 in
        rw (hit, All, fetch_rtx)
          (
            record {
              seq = seq;
              original = original;
              rtx_ssrc = rtx_ssrc;
              rtx_seq = p.rtx_seq;
              asked = ground arith;
              cached = hit;
              built = refl;
            },
            All-imply (λ packet. IsFetched p.rtp_cache seqs (rtp packet))
                (λ packet. IsFetched p.rtp_cache (seq ∷ seqs) (rtp packet))
                (fetch_rtx q rtx_ssrc seqs).1 (λ packet v. IsFetched-later seq v)
                (fetch_rtx-IsFetched q rtx_ssrc seqs),
          )
  ]

  -- Fetching takes numbers of the RTX stream, and changes nothing else.
  pub fetch_rtx-keeps :
      (p : Participant F) (rtx_ssrc : ℕ) (seqs : List ℕ)
      → (n : ℕ) × ((fetch_rtx p rtx_ssrc seqs).0 ≡ record p { rtx_seq = n })
  unfolding fetch_rtx
  fetch_rtx-keeps p rtx_ssrc [] = (p.rtx_seq, refl)
  fetch_rtx-keeps p rtx_ssrc (seq ∷ seqs) = elim (Option-cases (RtpCache.get p.rtp_cache seq)) [
    | inl miss ↦ rw (miss, fetch_rtx) (fetch_rtx-keeps p rtx_ssrc seqs)
    | inr (original, hit) ↦ rw (hit, fetch_rtx) (fetch_rtx-keeps (next_rtx_seq p).0 rtx_ssrc seqs)
  ]
