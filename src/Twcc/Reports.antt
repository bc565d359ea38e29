-- ===== src/Twcc/Reports.antt =====
-- src/transport/udp/twcc.rs: which packets the feedbacks of a recorder report, one after the other.
use oxlens_sfu_server.Prelude.{
  subst, ℕ, ◌+◌, ◌-◌, ◌≤◌, ◌<◌, ◌≡◌, ◌≢◌, refl, ◌∙◌, sym, ap, true, not, ◌||◌, Option, none, some,
  some-injective, List, [], ◌∷◌, ◌++◌, arith, length, replicate, length-append, length-replicate,
  read16, ltb, ◌==◌, if◌then◌else◌, add16, u16_mod, get_or, set, Bool, false,
}
use oxlens_sfu_server.Twcc.{
  TwccRecorder, recorder_capacity, note_arrival, pending_count, advance_base,
}
use oxlens_sfu_server.Twcc.Feedback.{
  body_len, padded_body, pad_count, unpadded, feedback_packet, arrivals_from, first_of, report,
  reported, build_twcc_feedback,
}
use oxlens_sfu_server.Twcc.Size.{get_or-set_ne}

-- The first number that a feedback packet reports, and how many it reports from there.
abbrev pub base_of : List ℕ → ℕ
base_of packet = read16 packet 12

abbrev pub count_of : List ℕ → ℕ
count_of packet = read16 packet 14

-- Arrivals with their numbers and times, noted in order.
unfoldable pub note_all : TwccRecorder → List (ℕ × ℕ) → TwccRecorder
note_all r [] = r
note_all r (a ∷ more) = note_all (note_arrival r a.0 a.1) more

note_arrival-keeps :
    (r : TwccRecorder) (seq arrival : ℕ)
    → r.started ≡ true
    → ((note_arrival r seq arrival).started ≡ true)
      × ((note_arrival r seq arrival).pending_base_seq ≡ r.pending_base_seq)
unfolding note_arrival
note_arrival-keeps r seq arrival run = (ground (arith, run), ground (arith, run))

note_all-keeps :
    (r : TwccRecorder) (more : List (ℕ × ℕ))
    → r.started ≡ true
    → (note_all r more).pending_base_seq ≡ r.pending_base_seq
unfolding note_all
note_all-keeps r [] run = refl
note_all-keeps r (a ∷ more) run =
    let once = note_arrival-keeps r a.0 a.1 run in
    note_all-keeps (note_arrival r a.0 a.1) more once.0 ∙ once.1

get_or-if_set :
    (b : Bool) (xs : List ℕ) (at i v : ℕ)
    → i < at
    → get_or (if b then set xs at v else xs) i 0 ≡ get_or xs i 0
get_or-if_set true xs at i v h = get_or-set_ne xs at i v h
get_or-if_set false xs at i v h = refl

-- The padding leaves the first bytes.
feedback_packet-at :
    (media_ssrc base_seq count reference_time fb : ℕ) (body : List ℕ) (i : ℕ)
    → i < 16
    → get_or (feedback_packet media_ssrc base_seq count reference_time fb body) i 0
      ≡ get_or
          (unpadded media_ssrc base_seq count reference_time fb body
            ++ replicate
                (4
                  + padded_body (length body)
                  - length (unpadded media_ssrc base_seq count reference_time fb body))
                0)
          i
          0
unfolding feedback_packet
feedback_packet-at media_ssrc base_seq count reference_time fb body i h =
    let buf = unpadded media_ssrc base_seq count reference_time fb body in
    let zeros = 4 + padded_body (length body) - length buf in
    let filled = buf ++ replicate zeros 0 in
    let long : 16 < length filled - 1 =
      omega (arith, length-append buf (replicate zeros 0), length-replicate {A = ℕ} zeros 0) in
    get_or-if_set (ltb (body_len (length body)) (padded_body (length body))) filled
      (length filled - 1) i (pad_count (length body)) (omega (arith, h, long))

feedback_packet-range :
    (media_ssrc base_seq count reference_time fb : ℕ) (body : List ℕ)
    → base_seq < u16_mod
    → count < u16_mod
    → let packet = feedback_packet media_ssrc base_seq count reference_time fb body in
      (base_of packet ≡ base_seq) × (count_of packet ≡ count)
feedback_packet-range media_ssrc base_seq count reference_time fb body hb hc =
    let byte = feedback_packet-at media_ssrc base_seq count reference_time fb body in
    (
      omega (arith, byte 12 (omega arith), byte 13 (omega arith)),
      omega (arith, byte 14 (omega arith), byte 15 (omega arith)),
    )

-- What a feedback that is built has reported.
record IsReport (r : TwccRecorder) (packet : List ℕ) (r' : TwccRecorder) : Type 0 where
  run : r.started ≡ true
  small : pending_count r ≤ recorder_capacity
  base : base_of packet ≡ r.pending_base_seq
  counted : count_of packet ≡ pending_count r
  after : r' ≡ reported r

report-IsReport :
    (r : TwccRecorder) (media_ssrc base_time first : ℕ) (arrivals : List (Option ℕ))
    → r.started ≡ true
    → pending_count r ≤ recorder_capacity
    → r.pending_base_seq < u16_mod
    → IsReport r (report r media_ssrc base_time first arrivals) (reported r)
unfolding report
report-IsReport r media_ssrc base_time first arrivals run small hb =
    let range =
      feedback_packet-range media_ssrc r.pending_base_seq (pending_count r) _ r.fb_pkt_count _ hb
        (omega (arith, small)) in
    record { run = run; small = small; base = range.0; counted = range.1; after = refl }

-- A result that is a report, if it has a packet.
abbrev Built : TwccRecorder → (packet : List ℕ) → TwccRecorder × Option (List ℕ) → Type 0
Built r packet out = out.1 ≡ some packet → IsReport r packet out.0

Built-none : (r r' : TwccRecorder) (packet : List ℕ) → Built r packet (r', none)
Built-none r r' packet e = absurd (ground (arith, e))

Built-if :
    (r : TwccRecorder) (packet : List ℕ) (b : Bool)
    (then_out else_out : TwccRecorder × Option (List ℕ))
    → (b ≡ true → Built r packet then_out)
    → (b ≡ false → Built r packet else_out)
    → Built r packet (if b then then_out else else_out)
Built-if r packet true then_out else_out h k = h refl
Built-if r packet false then_out else_out h k = k refl

Built-elim :
    (r : TwccRecorder) (packet : List ℕ) (o : Option ℕ) (f : ℕ → TwccRecorder × Option (List ℕ))
    → ((a : ℕ) → Built r packet (f a))
    → Built r packet (elim o [ none ↦ (r, none) | some a ↦ f a ])
Built-elim r packet none f h = Built-none r r packet
Built-elim r packet (some a) f h = h a

build_twcc_feedback-IsReport :
    (r : TwccRecorder) (media_ssrc : ℕ) (packet : List ℕ)
    → r.pending_base_seq < u16_mod
    → Built r packet (build_twcc_feedback r media_ssrc)
unfolding build_twcc_feedback
build_twcc_feedback-IsReport r media_ssrc packet hb =
    let arrivals = arrivals_from (pending_count r) r r.pending_base_seq in
    Built-if r packet (not r.started || pending_count r == 0) _ _ (λ idle. Built-none r r packet)
      (λ due. Built-elim r packet r.base_time _ (λ base_time.
        Built-if r packet (ltb recorder_capacity (pending_count r)) _ _
          (λ many. Built-none r _ packet)
          (λ few. Built-elim r packet (first_of arrivals) _ (λ first e.
            subst (λ p. IsReport r p (reported r)) (some-injective e)
              (report-IsReport r media_ssrc base_time first arrivals (ground (arith, due))
                (ground (arith, few)) hb)))))

-- The numbers of two ranges, one behind the other on the circle and of `recorder_capacity` at most,
-- are different.
apart :
    (base m n i j : ℕ)
    → m ≤ recorder_capacity
    → n ≤ recorder_capacity
    → i < m
    → j < n
    → add16 base i ≢ add16 (add16 base m) j
apart base m n i j hm hn hi hj e = omega (arith, e, hm, hn, hi, hj)

reported-pending_base_seq :
    (r : TwccRecorder)
    → ((reported r).started ≡ r.started)
      × ((reported r).pending_base_seq ≡ add16 r.pending_base_seq (pending_count r))
unfolding advance_base
reported-pending_base_seq r = (refl, refl)

-- Where the start of the pending numbers has 16 bits: two feedbacks that a recorder builds, whatever
-- arrivals it notes in between, report ranges that follow each other on the circle of the numbers,
-- the second beginning with the number behind the first. So none is left out in between, and no
-- number is reported by both.
pub build_twcc_feedback-follows :
    (r : TwccRecorder) (media_ssrc : ℕ) (first second : List ℕ) (noted : List (ℕ × ℕ))
    → r.pending_base_seq < u16_mod
    → (build_twcc_feedback r media_ssrc).1 ≡ some first
    → let r' = note_all (build_twcc_feedback r media_ssrc).0 noted in
      (build_twcc_feedback r' media_ssrc).1 ≡ some second
      → (base_of second ≡ add16 (base_of first) (count_of first))
        × ((i j : ℕ)
            → i < count_of first
            → j < count_of second
            → add16 (base_of first) i ≢ add16 (base_of second) j)
build_twcc_feedback-follows r media_ssrc first second noted hb built built' =
    let v = build_twcc_feedback-IsReport r media_ssrc first hb built in
    let left = (build_twcc_feedback r media_ssrc).0 in
    let state = reported-pending_base_seq r in
    let start : left.pending_base_seq ≡ add16 (base_of first) (count_of first) =
      ap (λ x. x.pending_base_seq) v.after
      ∙ state.1
      ∙ ap (λ b. add16 b (pending_count r)) (sym v.base)
      ∙ ap (add16 (base_of first)) (sym v.counted) in
    let kept = note_all-keeps left noted (ap (λ x. x.started) v.after ∙ state.0 ∙ v.run) ∙ start in
    let w =
      build_twcc_feedback-IsReport (note_all left noted) media_ssrc second (omega (arith, kept))
        built' in
    let behind = w.base ∙ kept in
    (
      behind,
      (λ i j hi hj e.
          apart (base_of first) (count_of first) (count_of second) i j
            (omega (arith, v.counted, v.small)) (omega (arith, w.counted, w.small)) hi hj
            (e ∙ ap (λ b. add16 b j) behind)),
    )
