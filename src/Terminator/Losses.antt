-- ===== src/Terminator/Losses.antt =====
-- src/transport/udp/rtcp_terminator.rs: the losses that the receiver reports count.
use oxlens_sfu_server.Prelude.{
  ℕ, ◌+◌, ◌-◌, ◌*◌, ◌/◌, ◌%◌, ◌≤◌, ◌<◌, min, ◌≡◌, refl, sym, ap, ◌∙◌, true, List, [], ◌∷◌, arith,
  length, u16_mod, u32_mod, add16, add32, sub32, subst, ltb, if◌then◌else◌,
}
use native.Mathlib.Nat.{div-lt_iff_lt-mul}
use oxlens_sfu_server.Terminator.{Float64, RecvStats, new, update, build_rr_block, max_dropout}

-- A packet as the statistics see it.
pub record Packet : Type 0 where
  pub seq : ℕ
  pub rtp_ts : ℕ
  pub arrival_ms : ℕ

-- `Ahead top ps last`: each packet is ahead of the one before by at least one and less than the
-- allowed dropout; counted without wrapping, the numbers lead from `top` to `last`.
pub data Ahead : ℕ → List Packet → ℕ → Type 0 where
  done : (top : ℕ) → Ahead top [] top
  ahead :
      (top d last rtp_ts arrival_ms : ℕ) (ps : List Packet)
      → 0 < d
      → d < max_dropout
      → Ahead (top + d) ps last
      → Ahead top
          (record { seq = (top + d) % u16_mod; rtp_ts = rtp_ts; arrival_ms = arrival_ms } ∷ ps)
          last

Ahead-length : {top last : ℕ} {ps : List Packet} → Ahead top ps last → top + length ps ≤ last
Ahead-length (done top) = omega arith
Ahead-length (ahead top d last rtp_ts arrival_ms ps h lt rest) = omega (arith, Ahead-length rest)

-- The statistics of a stream that runs: the first number, the highest one, and the count, all
-- without wrapping, and what the last report has seen of them.
pub record Tracks {F : Type 0} (s : RecvStats F) (base top n e r : ℕ) : Type 0 where
  pub started : s.initialized ≡ true
  pub passed : s.seq_probation ≡ 0
  pub first : s.base_seq ≡ base
  pub highest : s.max_seq ≡ top % u16_mod
  pub turns : s.cycles + s.max_seq ≡ top
  pub count : s.received ≡ n
  pub seen_expected : s.expected_prior ≡ e
  pub seen_received : s.received_prior ≡ r

lost_part : (lost all : ℕ) → lost < all → lost * 256 / all < 256
lost_part lost all lt =
    (div-lt_iff_lt-mul {k = all} {x = lost * 256} {y = 256} (omega arith)).1 (omega arith)

module _ {F : Type 0} (f : Float64 F) where
  unfoldable pub update_all : RecvStats F → List Packet → RecvStats F
  update_all s [] = s
  update_all s (p ∷ ps) = update_all (update f s p.seq p.rtp_ts p.arrival_ms) ps

  update-Tracks :
      (s : RecvStats F) (base top n e r d rtp_ts arrival_ms : ℕ)
      → Tracks s base top n e r
      → 0 < d
      → d < max_dropout
      → top + d < u32_mod
      → n + 1 < u32_mod
      → Tracks (update f s ((top + d) % u16_mod) rtp_ts arrival_ms) base (top + d) (n + 1) e r
  unfolding update
  update-Tracks s base top n e r d rtp_ts arrival_ms t pos lt high few = ground arith

  update_all-Tracks :
      (s : RecvStats F) (base n e r : ℕ) {top last : ℕ} {ps : List Packet}
      → Ahead top ps last
      → Tracks s base top n e r
      → last < u32_mod
      → n + length ps < u32_mod
      → Tracks (update_all s ps) base last (n + length ps) e r
  unfolding update_all
  update_all-Tracks s base n e r (done top) t high few =
      subst (λ k. Tracks s base top k e r) (omega arith) t
  update_all-Tracks s base n e r (ahead top d last rtp_ts arrival_ms ps h lt rest) t high few =
      let le = Ahead-length rest in
      let next =
        update-Tracks s base top n e r d rtp_ts arrival_ms t h lt (omega arith) (omega arith) in
      subst
        (λ k.
          Tracks (update_all (update f s ((top + d) % u16_mod) rtp_ts arrival_ms) ps) base last k e
            r)
        (omega arith)
        (update_all-Tracks (update f s ((top + d) % u16_mod) rtp_ts arrival_ms) base (n + 1) e r
          rest next high (omega arith))

  -- The second packet ends the probation, and the count starts at it.
  start-Tracks :
      (ssrc clock_rate : ℕ) (p q : Packet)
      → p.seq < u16_mod
      → q.seq ≡ add16 p.seq 1
      → Tracks (update_all (new f ssrc clock_rate) (p ∷ q ∷ [])) q.seq q.seq 1 0 0
  unfolding update new update_all
  start-Tracks ssrc clock_rate p q h e = ground arith

  build_rr_block-Tracks :
      (s : RecvStats F) (base top n e r now : ℕ)
      → Tracks s base top n e r
      → base ≤ top
      → top < u32_mod - 1
      → e ≤ top - base + 1
      → r ≤ n
      → n < u32_mod
      → let (s', block) = build_rr_block f s now in
        let interval = top - base + 1 - e in
        Tracks s' base top n (top - base + 1) n
        × (block.extended_highest_seq ≡ top)
        × (block.cumulative_lost ≡ min (top - base + 1 - n) 0x7fffff)
        × (block.fraction_lost
            ≡ (if ltb 0 interval then (interval - (n - r)) * 256 / interval % 256 else 0))
  unfolding build_rr_block
  build_rr_block-Tracks s base top n e r now t le high he hr few =
      let expected : add32 (sub32 (add32 s.cycles s.max_seq) s.base_seq) 1 ≡ top - base + 1 =
        omega (arith, t) in
      let of_prior : sub32 (top - base + 1) s.expected_prior ≡ top - base + 1 - e =
        omega (arith, t) in
      let of_received : sub32 s.received s.received_prior ≡ n - r = omega (arith, t) in
      let highest : add32 s.cycles s.max_seq ≡ top = omega (arith, t) in
      rw (expected, of_prior, of_received, highest, t.count)
        (
          record {
            started = t.started;
            passed = t.passed;
            first = t.first;
            highest = t.highest;
            turns = t.turns;
            count = refl;
            seen_expected = refl;
            seen_received = refl;
          },
          refl,
          refl,
          refl,
        )

  -- The share of lost packets, in parts of 256, is a byte when one packet at least arrived.
  share :
      (lost all : ℕ)
      → lost < all
      → (if ltb 0 all then lost * 256 / all % 256 else 0) ≡ lost * 256 / all
  share lost all lt = let byte : lost * 256 / all < 256 = lost_part lost all lt in ground arith

  share_of :
      (l lost i all : ℕ)
      → l ≡ lost
      → i ≡ all
      → lost < all
      → (if ltb 0 i then l * 256 / i % 256 else 0) ≡ lost * 256 / all
  share_of l lost i all el ei lt = rw (el, ei) (share lost all lt)

  -- The first report of a stream whose second packet follows the first, and whose later ones each
  -- run ahead of the one before by less than the allowed dropout, the numbers staying below 2^32 -
  -- 1 when counted without wrapping: the count starts at the second packet, the highest number is
  -- that of the last one without wrapping, and the loss is what the numbers skip, exactly, as a
  -- total (at most 0x7fffff) and as a share of the expected packets in parts of 256.
  pub first_report-losses :
      (ssrc clock_rate now : ℕ) (p q : Packet) (ps : List Packet) (last : ℕ)
      → p.seq < u16_mod
      → q.seq ≡ add16 p.seq 1
      → Ahead q.seq ps last
      → last < u32_mod - 1
      → let block = (build_rr_block f (update_all (new f ssrc clock_rate) (p ∷ q ∷ ps)) now).1 in
        let lost = last - (q.seq + length ps) in
        (block.extended_highest_seq ≡ last)
        × (block.cumulative_lost ≡ min lost 0x7fffff)
        × (block.fraction_lost ≡ lost * 256 / (last - q.seq + 1))
  unfolding update_all
  first_report-losses ssrc clock_rate now p q ps last h e a high =
      let le = Ahead-length a in
      let s = update_all (new f ssrc clock_rate) (p ∷ q ∷ []) in
      let t =
        update_all-Tracks s q.seq 1 0 0 a (start-Tracks ssrc clock_rate p q h e) (omega arith)
          (omega arith) in
      let r =
        build_rr_block-Tracks (update_all s ps) q.seq last (1 + length ps) 0 0 now t (omega arith)
          high (omega arith) (omega arith) (omega arith) in
      let lost : last - q.seq + 1 - (1 + length ps) ≡ last - (q.seq + length ps) = omega arith in
      (
        r.1,
        r.2 ∙ ap (λ k. min k 0x7fffff) lost,
        r.3
            ∙ share_of (last - q.seq + 1 - 0 - (1 + length ps - 0)) (last - (q.seq + length ps))
                (last - q.seq + 1 - 0) (last - q.seq + 1) (omega arith) (omega arith) (omega arith),
      )

  -- Between two reports of a stream that runs (see `Tracks`), with one packet at least and each
  -- ahead of the one before by less than the allowed dropout, the numbers and counts not leaving 32
  -- bits: the second report gives the share, in parts of 256, of the packets that were expected
  -- since the first one and did not come. It is less than 256.
  pub interval-losses :
      (s : RecvStats F) (base top n e r now later : ℕ) (ps : List Packet) (last : ℕ)
      → Tracks s base top n e r
      → base ≤ top
      → e ≤ top - base + 1
      → r ≤ n
      → Ahead top ps last
      → last < u32_mod - 1
      → n + length ps < u32_mod
      → 0 < length ps
      → let s' = update_all (build_rr_block f s now).0 ps in
        let fraction = (build_rr_block f s' later).1.fraction_lost in
        (fraction ≡ (last - (top + length ps)) * 256 / (last - top)) × (fraction < 256)
  interval-losses s base top n e r now later ps last t le he hr a high few some_came =
      let ahead_by = Ahead-length a in
      let first =
        build_rr_block-Tracks s base top n e r now t le (omega arith) he hr (omega arith) in
      let s1 = (build_rr_block f s now).0 in
      let t' = update_all-Tracks s1 base n (top - base + 1) n a first.0 (omega arith) few in
      let second =
        build_rr_block-Tracks (update_all s1 ps) base last (n + length ps) (top - base + 1) n later
          t' (omega arith) high (omega arith) (omega arith) few in
      let fraction =
        second.3
        ∙ share_of (last - base + 1 - (top - base + 1) - (n + length ps - n))
            (last - (top + length ps)) (last - base + 1 - (top - base + 1)) (last - top)
            (omega arith) (omega arith) (omega arith) in
      (
        fraction,
        subst (λ k. k < 256) (sym fraction)
            (lost_part (last - (top + length ps)) (last - top) (omega arith)),
      )
