-- ===== src/Rtcp/Feedback/Laws.antt =====
-- src/transport/udp/rtcp.rs: the bit rate in a REMB packet, and the reading of a PLI.
use oxlens_sfu_server.Prelude.{
  ℕ, zero, suc, ◌+◌, ◌*◌, ◌/◌, ◌%◌, ◌^◌, ◌≤◌, ◌<◌, ◌≡◌, refl, sym, subst, ap, ◌∙◌, inl, inr,
  Bool-cases, List, arith, ltb, length, byte_at, read32, u32_mod, false,
}
use native.Mathlib.Nat.{pow-suc}
use oxlens_sfu_server.Rtcp.Feedback.{halve, encode_remb_bitrate, build_remb}

-- The mantissa fits 18 bits, `bps` lies between `mantissa * 2 ^ exp` and the next such number, and
-- the exponent is at most `top`.
abbrev pub IsRate : (top bps : ℕ) → ℕ × ℕ → Type 0
IsRate top bps (exp, mantissa) =
    (mantissa < 2 ^ 18)
    × (mantissa * 2 ^ exp ≤ bps)
    × (bps < (mantissa + 1) * 2 ^ exp)
    × (exp ≤ top)

double_pow : (n : ℕ) → 2 ^ (n + 1) ≡ 2 * 2 ^ n
double_pow n = ap (λ t. 2 ^ t) (omega arith) ∙ pow-suc 2 n ∙ omega arith

mul_mono : (x y p : ℕ) → x ≤ y → x * p ≤ y * p
mul_mono x y p h = grind arith

halve_low : (m p bps : ℕ) → m * p ≤ bps → m / 2 * (2 * p) ≤ bps
halve_low m p bps h = omega (arith, mul_mono (m / 2 * 2) m p (omega arith))

halve_high : (m p bps : ℕ) → bps < (m + 1) * p → bps < (m / 2 + 1) * (2 * p)
halve_high m p bps h = omega (arith, mul_mono (m + 1) (m / 2 * 2 + 2) p (omega arith))

halve-IsRate :
    (fuel k exp mantissa bps : ℕ)
    → k ≤ fuel
    → mantissa < 2 ^ (k + 18)
    → mantissa * 2 ^ exp ≤ bps
    → bps < (mantissa + 1) * 2 ^ exp
    → IsRate (exp + k) bps (halve fuel exp mantissa)
unfolding halve
halve-IsRate zero zero exp mantissa bps hk h lo hi = (h, lo, hi, omega arith)
halve-IsRate zero (suc k) exp mantissa bps hk h lo hi = absurd (omega arith)
halve-IsRate (suc fuel) zero exp mantissa bps hk h lo hi =
    let fit : ltb 0x3ffff mantissa ≡ false = ground arith in rw fit (h, lo, hi, omega arith)
halve-IsRate (suc fuel) (suc k) exp mantissa bps hk h lo hi =
    elim (Bool-cases (ltb 0x3ffff mantissa)) [
      | inl big ↦
          let smaller : mantissa / 2 < 2 ^ (k + 18) =
            omega (arith, double_pow (k + 18), ap (λ t. 2 ^ t) (shift k)) in
          let low : mantissa / 2 * 2 ^ (exp + 1) ≤ bps =
            rw (double_pow exp) (halve_low mantissa (2 ^ exp) bps lo) in
          let high : bps < (mantissa / 2 + 1) * 2 ^ (exp + 1) =
            rw (double_pow exp) (halve_high mantissa (2 ^ exp) bps hi) in
          let r = halve-IsRate fuel k (exp + 1) (mantissa / 2) bps (omega arith) smaller low high in
          rw big (r.0, r.1, r.2, omega (arith, r.3))
      | inr fit ↦ rw fit (ground arith, lo, hi, omega arith)
    ]
  where
    shift : (k : ℕ) → suc k + 18 ≡ k + 18 + 1
    shift k = omega arith

-- Any bit rate of 64 bits is encoded within its precision: the mantissa has 18 bits, the encoded
-- rate is not above the true one, the next mantissa would be, and the exponent is at most 46.
encode_remb_bitrate-IsRate : (bps : ℕ) → bps < 2 ^ 64 → IsRate 46 bps (encode_remb_bitrate bps)
unfolding encode_remb_bitrate
encode_remb_bitrate-IsRate bps h =
    halve-IsRate 64 46 0 bps bps (omega arith) h (omega arith) (omega arith)

-- The exponent and the mantissa as a receiver of REMB reads them (six and eighteen bits).
abbrev pub read_remb : List ℕ → ℕ × ℕ
read_remb buf =
    (byte_at buf 17 / 4, (byte_at buf 17 % 4 * 256 + byte_at buf 18) * 256 + byte_at buf 19)

-- A REMB packet for a rate of 64 bits and an SSRC of 32 is 24 bytes and carries the encoded rate:
-- its receiver reads a rate that is not above the one that was asked for and less than one part of
-- the mantissa below it, and the SSRC.
read-build_remb :
    (bps ssrc : ℕ)
    → bps < 2 ^ 64
    → ssrc < u32_mod
    → (length (build_remb bps ssrc) ≡ 24)
      × (read_remb (build_remb bps ssrc) ≡ encode_remb_bitrate bps)
      × IsRate 46 bps (read_remb (build_remb bps ssrc))
      × (read32 (build_remb bps ssrc) 20 ≡ ssrc)
unfolding build_remb
read-build_remb bps ssrc h hs =
    let r = encode_remb_bitrate-IsRate bps h in
    let same_rate : read_remb (build_remb bps ssrc) ≡ encode_remb_bitrate bps = ground arith in
    (refl, same_rate, subst (IsRate 46 bps) (sym same_rate) r, omega arith)
