-- ===== src/Ptt/Output.antt =====
-- src/room/ptt_rewriter.rs: the header that `rewrite` leaves in the packet.
use oxlens_sfu_server.Prelude.{
  ℕ, ◌%◌, ◌/◌, ◌≤◌, ◌<◌, ◌≡◌, refl, Bool, true, false, List, arith, length, drop, byte_at, read16,
  read32, u16_mod, u32_mod, Header, header, length-Header, if◌then◌else◌,
}
use oxlens_sfu_server.Ptt.{PttRewriter, rewrite_header}

-- The packet `out` is `buf` with another sequence number, timestamp and SSRC, and with the marker
-- set if `mark` is: the first byte (version, padding, extension, CSRC count), the payload type and
-- all bytes behind the fixed header are kept.
pub record Rewritten (buf out : List ℕ) (ssrc seq ts : ℕ) (mark : Bool) : Type 0 where
  pub seq_written : read16 out 2 ≡ seq
  pub ts_written : read32 out 4 ≡ ts
  pub ssrc_written : read32 out 8 ≡ ssrc
  pub first_kept : byte_at out 0 ≡ byte_at buf 0
  pub type_kept : byte_at out 1 % 128 ≡ byte_at buf 1 % 128
  pub marker : byte_at out 1 / 128 ≡ (if mark then 1 else byte_at buf 1 / 128)
  pub rest_kept : drop 12 out ≡ drop 12 buf
  pub length_kept : length out ≡ length buf

rewrite_header-of_Header :
    (r : PttRewriter) (seq ts : ℕ) (mark : Bool) {buf : List ℕ}
    → Header buf
    → r.virtual_ssrc < u32_mod
    → seq < u16_mod
    → ts < u32_mod
    → Rewritten buf (rewrite_header r seq ts mark buf) r.virtual_ssrc seq ts mark
unfolding rewrite_header
rewrite_header-of_Header r seq ts true (header b0 b1 b2 b3 b4 b5 b6 b7 b8 b9 b10 b11 rest) hr hs
      ht =
    record {
      seq_written = omega arith;
      ts_written = omega arith;
      ssrc_written = omega arith;
      first_kept = refl;
      type_kept = omega arith;
      marker = omega arith;
      rest_kept = refl;
      length_kept = refl;
    }
rewrite_header-of_Header r seq ts false (header b0 b1 b2 b3 b4 b5 b6 b7 b8 b9 b10 b11 rest) hr hs
      ht =
    record {
      seq_written = omega arith;
      ts_written = omega arith;
      ssrc_written = omega arith;
      first_kept = refl;
      type_kept = refl;
      marker = refl;
      rest_kept = refl;
      length_kept = refl;
    }

pub rewrite_header-Rewritten :
    (r : PttRewriter) (seq ts : ℕ) (mark : Bool) (buf : List ℕ)
    → 12 ≤ length buf
    → r.virtual_ssrc < u32_mod
    → seq < u16_mod
    → ts < u32_mod
    → Rewritten buf (rewrite_header r seq ts mark buf) r.virtual_ssrc seq ts mark
rewrite_header-Rewritten r seq ts mark buf h hr hs ht =
    rewrite_header-of_Header r seq ts mark (length-Header buf h) hr hs ht
