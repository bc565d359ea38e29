-- ===== src/Rtcp/Rtx/Laws.antt =====
-- src/transport/udp/rtcp.rs: what a retransmission carries.
use oxlens_sfu_server.Prelude.{
  ℕ, ◌+◌, ◌%◌, ◌≤◌, ◌<◌, ◌≡◌, refl, ◌∙◌, ap, false, List, [], ◌∷◌, ◌++◌, arith, ltb, length,
  length-append, get_or-append_left, get_or-append_right, drop, take-length-append,
  drop-length-append, byte_at, read16, read32, be16, u16_mod, u32_mod, AreBytes, Header, header,
  length-Header, subst, suc_add, read_bounds,
}
use oxlens_sfu_server.Rtcp.Header.{fixed_len, rtx_pt_for, parse_rtp_header}
use oxlens_sfu_server.Rtcp.Rtx.{rtx_header, build_rtx_packet}

rtx_pt_for-lt : (pt : ℕ) → rtx_pt_for pt < 128
unfolding rtx_pt_for
rtx_pt_for-lt pt = ground arith

-- The header of a retransmission, by its parts.
record HasHeader (head out : List ℕ) (ssrc seq : ℕ) : Type 0 where
  size : length out ≡ length head
  first : byte_at out 0 ≡ byte_at head 0
  kind : byte_at out 1 ≡ rtx_pt_for (byte_at head 1 % 128)
  number : read16 out 2 ≡ seq
  time : read32 out 4 ≡ read32 head 4
  source : read32 out 8 ≡ ssrc

rtx_header-HasHeader :
    {head : List ℕ} (ssrc seq : ℕ)
    → Header head
    → ssrc < u32_mod
    → seq < u16_mod
    → HasHeader head (rtx_header head ssrc seq) ssrc seq
rtx_header-HasHeader ssrc seq (header b0 b1 b2 b3 b4 b5 b6 b7 b8 b9 b10 b11 rest) hr hs = record {
  size = refl;
  first = refl;
  kind = refl;
  number = omega arith;
  time = refl;
  source = omega arith;
}

-- The fixed header with its CSRCs.
pub record IsHead (head : List ℕ) : Type 0 where
  pub long : 12 ≤ length head
  pub whole : length head ≡ fixed_len head
  pub bytes : AreBytes head

module _ (head payload : List ℕ) (h : IsHead head) where
  head_byte : (i : ℕ) → i < 12 → byte_at (head ++ payload) i ≡ byte_at head i
  head_byte i lt = get_or-append_left head payload i 0 (omega (arith, h.long))

  head_len : fixed_len (head ++ payload) ≡ length head
  head_len = omega (arith, head_byte 0 (omega arith), h.whole)

  build_rtx_packet-parts :
      (ssrc seq : ℕ)
      → build_rtx_packet (head ++ payload) ssrc seq
        ≡ rtx_header head ssrc seq ++ (be16 (read16 head 2) ++ payload)
  unfolding build_rtx_packet
  build_rtx_packet-parts ssrc seq =
      let enough : ltb (length (head ++ payload)) 12 ≡ false =
        ground (arith, length-append head payload, h.long) in
      let reaches : ltb (length (head ++ payload)) (length head) ≡ false =
        ground (arith, length-append head payload) in
      simp (
        head_len,
        enough,
        reaches,
        take-length-append head payload,
        drop-length-append head payload,
        head_byte 2 (omega arith),
        head_byte 3 (omega arith),
      )

-- Reading the joined packet, from what its header holds.
parse_rtp_header-append :
    (head out tail : List ℕ) (ssrc seq : ℕ)
    → IsHead head
    → HasHeader head out ssrc seq
    → parse_rtp_header (out ++ tail) ≡ record {
      pt = rtx_pt_for (byte_at head 1 % 128);
      marker = false;
      seq = seq;
      timestamp = read32 head 4;
      ssrc = ssrc;
      header_len = length head;
    }
unfolding parse_rtp_header
parse_rtp_header-append head out tail ssrc seq h w =
    let at : (i : ℕ) → i < 12 → byte_at (out ++ tail) i ≡ byte_at out i =
      λ i lt. get_or-append_left out tail i 0 (omega (arith, w.size, h.long)) in
    let enough : ltb (length (out ++ tail)) 12 ≡ false =
      ground (arith, length-append out tail, w.size, h.long) in
    simp
      (
        enough,
        at 0 (omega arith),
        at 1 (omega arith),
        at 2 (omega arith),
        at 3 (omega arith),
        at 4 (omega arith),
        at 5 (omega arith),
        at 6 (omega arith),
        at 7 (omega arith),
        at 8 (omega arith),
        at 9 (omega arith),
        at 10 (omega arith),
        at 11 (omega arith),
        w.kind,
      )
      (ground
        (arith, w.number, w.time, w.source, w.first, h.whole, rtx_pt_for-lt (byte_at head 1 % 128)))

-- A number written behind a list is read there, and what follows it is found behind it.
behind :
    (out : List ℕ) (n : ℕ) (payload : List ℕ)
    → n < u16_mod
    → read16 (out ++ (be16 n ++ payload)) (length out) ≡ n
behind out n payload lt =
    let hi = get_or-append_right out (be16 n ++ payload) 0 0 in
    let lo = get_or-append_right out (be16 n ++ payload) 1 0 in
    let there : length out ≡ length out + 0 = omega arith in
    let first = ap (byte_at (out ++ (be16 n ++ payload))) there ∙ hi in omega (arith, first, lo)

drop_behind :
    (out : List ℕ) (n : ℕ) (payload : List ℕ)
    → drop (length out + 2) (out ++ (be16 n ++ payload)) ≡ payload
drop_behind [] n payload = refl
drop_behind (x ∷ out) n payload = rw (suc_add (length out) 2) (drop_behind out n payload)

-- A retransmission of a packet, given as its fixed header with the CSRCs and what follows, on an
-- SSRC of 32 bits with a number of 16, is read as a packet of the RTX stream: with the RTX payload
-- type of the codec, no marker, its own number and SSRC, and the timestamp and the header length of
-- the original. Right behind the CSRCs stand the original sequence number and then all that stood
-- there in the original; the first byte, and with it the extension bit, is the original's.
pub build_rtx_packet_lem :
    (head payload : List ℕ) (ssrc seq : ℕ)
    → IsHead head
    → ssrc < u32_mod
    → seq < u16_mod
    → let rtx = build_rtx_packet (head ++ payload) ssrc seq in
      (parse_rtp_header rtx ≡ record {
        pt = rtx_pt_for (byte_at head 1 % 128);
        marker = false;
        seq = seq;
        timestamp = read32 head 4;
        ssrc = ssrc;
        header_len = length head;
      })
      × (byte_at rtx 0 ≡ byte_at head 0)
      × (read16 rtx (length head) ≡ read16 head 2)
      × (drop (length head + 2) rtx ≡ payload)
build_rtx_packet_lem head payload ssrc seq h hr hs =
    let out = rtx_header head ssrc seq in
    let w = rtx_header-HasHeader ssrc seq (length-Header head h.long) hr hs in
    let number = read_bounds head h.long h.bytes in
    rw (build_rtx_packet-parts head payload h ssrc seq) (
      parse_rtp_header-append head out (be16 (read16 head 2) ++ payload) ssrc seq h w,
      get_or-append_left out (be16 (read16 head 2) ++ payload) 0 0 (omega (arith, w.size, h.long))
          ∙ w.first,
      subst (λ k. read16 (out ++ (be16 (read16 head 2) ++ payload)) k ≡ read16 head 2) w.size
          (behind out (read16 head 2) payload number.0),
      subst (λ k. drop (k + 2) (out ++ (be16 (read16 head 2) ++ payload)) ≡ payload) w.size
          (drop_behind out (read16 head 2) payload),
    )
