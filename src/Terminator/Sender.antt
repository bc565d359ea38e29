-- ===== src/Terminator/Sender.antt =====
-- src/transport/udp/rtcp_terminator.rs: the sender reports: their translation for a subscriber
-- (`translate_sr`), and the times that the statistics keep of them (`parse_sr_ntp`).
use oxlens_sfu_server.Prelude.{
  ℕ, ◌<◌, ◌≤◌, ◌≡◌, not, Option, none, some, List, ◌∷◌, arith, ltb, ◌==◌, if◌then◌else◌, length,
  drop, byte_at, read32, write32, u32_mod,
}

pub record SrTranslation : Type 0 where
  pub ssrc : Option ℕ
  pub rtp_ts : Option ℕ
  pub packet_count : ℕ
  pub octet_count : ℕ

-- `if let Some(v) = value { out[at..at + 4].copy_from_slice(&v.to_be_bytes()) }`
abbrev pub write_some : List ℕ → ℕ → Option ℕ → List ℕ
write_some out at none = out
write_some out at (some v) = write32 out at v

abbrev pub write_translation : List ℕ → SrTranslation → List ℕ
write_translation sr_block tr =
    write32 (write32 (write_some (write_some sr_block 4 tr.ssrc) 16 tr.rtp_ts) 20 tr.packet_count)
      24 tr.octet_count

unfoldable pub translate_sr : List ℕ → SrTranslation → Option (List ℕ)
translate_sr sr_block tr =
    if ltb (length sr_block) 28
    then none
    else if not (byte_at sr_block 1 == 200)
    then none
    else some (write_translation sr_block tr)

-- The SSRC and the two words of the NTP time.
unfoldable pub parse_sr_ntp : List ℕ → Option (ℕ × ℕ × ℕ)
parse_sr_ntp sr_block =
    if ltb (length sr_block) 28
    then none
    else if not (byte_at sr_block 1 == 200)
    then none
    else some (read32 sr_block 4, read32 sr_block 8, read32 sr_block 12)

-- The new value, or else the old one.
abbrev pub or_kept : Option ℕ → ℕ → ℕ
or_kept none kept = kept
or_kept (some v) kept = v

abbrev pub IsWord : Option ℕ → Type 0
IsWord none = Unit {0}
IsWord (some v) = v < u32_mod

-- A sender report for a subscriber, against the publisher's.
pub record Translated (tr : SrTranslation) (sr_block out : List ℕ) : Type 0 where
  pub times :
      parse_sr_ntp out
      ≡ some (or_kept tr.ssrc (read32 sr_block 4), read32 sr_block 8, read32 sr_block 12)
  pub clock : read32 out 16 ≡ or_kept tr.rtp_ts (read32 sr_block 16)
  pub packets : read32 out 20 ≡ tr.packet_count
  pub octets : read32 out 24 ≡ tr.octet_count
  pub first : read32 out 0 ≡ read32 sr_block 0
  pub behind : drop 28 out ≡ drop 28 sr_block

-- A buffer of 28 bytes at least.
data Report : List ℕ → Type 0 where
  report :
      (b0 b1 b2 b3 b4 b5 b6 b7 b8 b9 b10 b11 b12 b13 b14 b15 b16 b17 b18 b19 b20 b21 b22 b23 b24 b25
        b26 b27 : ℕ)
      (rest : List ℕ)
      → Report (
          b0 ∷ b1 ∷ b2 ∷ b3 ∷ b4 ∷ b5 ∷ b6 ∷ b7 ∷ b8 ∷ b9 ∷ b10 ∷ b11 ∷ b12 ∷ b13 ∷ b14 ∷ b15 ∷ b16
          ∷ b17 ∷ b18 ∷ b19 ∷ b20 ∷ b21 ∷ b22 ∷ b23 ∷ b24 ∷ b25 ∷ b26 ∷ b27 ∷ rest)

length-Report : (buf : List ℕ) → 28 ≤ length buf → Report buf
length-Report
      (b0 ∷ b1 ∷ b2 ∷ b3 ∷ b4 ∷ b5 ∷ b6 ∷ b7 ∷ b8 ∷ b9 ∷ b10 ∷ b11 ∷ b12 ∷ b13 ∷ b14 ∷ b15 ∷ b16
        ∷ b17 ∷ b18 ∷ b19 ∷ b20 ∷ b21 ∷ b22 ∷ b23 ∷ b24 ∷ b25 ∷ b26 ∷ b27 ∷ rest)
      h =
    report b0 b1 b2 b3 b4 b5 b6 b7 b8 b9 b10 b11 b12 b13 b14 b15 b16 b17 b18 b19 b20 b21 b22 b23 b24
      b25 b26 b27 rest
length-Report _ h = absurd (omega arith)

of_Report :
    (ssrc rtp_ts : Option ℕ) (packet_count octet_count : ℕ) {buf : List ℕ}
    → Report buf
    → byte_at buf 1 ≡ 200
    → IsWord ssrc
    → IsWord rtp_ts
    → packet_count < u32_mod
    → octet_count < u32_mod
    → let tr : SrTranslation = record {
      ssrc = ssrc;
      rtp_ts = rtp_ts;
      packet_count = packet_count;
      octet_count = octet_count;
    } in
      Translated tr buf (write_translation buf tr)
unfolding parse_sr_ntp
of_Report ssrc rtp_ts pc oc
      (report b0 b1 b2 b3 b4 b5 b6 b7 b8 b9 b10 b11 b12 b13 b14 b15 b16 b17 b18 b19 b20 b21 b22 b23
        b24 b25 b26 b27 rest)
      is hs ht hp ho =
    record {
      times = ground arith;
      clock = ground arith;
      packets = ground arith;
      octets = ground arith;
      first = ground arith;
      behind = ground arith;
    }

-- A sender report of 28 bytes or more is translated, if the new values have 32 bits: the SSRC and
-- the RTP time are replaced where a new value is given, the counts always; the NTP time, the first
-- header word and all that is behind the sender's part stay, and the translated report is again
-- read as one.
translate_sr-Translated :
    (tr : SrTranslation) (buf : List ℕ)
    → 28 ≤ length buf
    → byte_at buf 1 ≡ 200
    → IsWord tr.ssrc
    → IsWord tr.rtp_ts
    → tr.packet_count < u32_mod
    → tr.octet_count < u32_mod
    → (out : List ℕ) × ((translate_sr buf tr ≡ some out) × Translated tr buf out)
unfolding translate_sr
translate_sr-Translated tr buf long is hs ht hp ho = (
  write_translation buf tr,
  (
    ground arith,
    of_Report tr.ssrc tr.rtp_ts tr.packet_count tr.octet_count (length-Report buf long) is hs ht hp
        ho,
  ),
)
