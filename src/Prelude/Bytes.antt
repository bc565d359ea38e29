-- ===== src/Prelude/Bytes.antt =====
-- Byte buffers as lists of numbers below 256, network byte order, and the wrapping arithmetic of
-- `u16` and `u32`. No code of the repository is modelled here; the names stand for Rust's own
-- `from_be_bytes`, `to_be_bytes`, `wrapping_add`, `wrapping_sub` and `saturating_mul`.
use Prim.Native.Nat.{ℕ, ◌+◌, ◌-◌, ◌*◌, ◌/◌, ◌%◌, ◌^◌, ◌≤◌, ◌<◌, min}
use mathlib.Core.Path.{◌≡◌}
use mathlib.Core.List.{List, [], ◌∷◌}
use native.Mathlib.Omega.{arith}
use oxlens_sfu_server.Prelude.Lists.{length, get_or, set, All}

abbrev pub u16_mod : ℕ
u16_mod = 2 ^ 16

abbrev pub u32_mod : ℕ
u32_mod = 2 ^ 32

abbrev pub add16 : ℕ → ℕ → ℕ
add16 a b = (a + b) % u16_mod

abbrev pub sub16 : ℕ → ℕ → ℕ
sub16 a b = (a + u16_mod - b) % u16_mod

abbrev pub add32 : ℕ → ℕ → ℕ
add32 a b = (a + b) % u32_mod

abbrev pub sub32 : ℕ → ℕ → ℕ
sub32 a b = (a + u32_mod - b) % u32_mod

abbrev pub sat_mul32 : ℕ → ℕ → ℕ
sat_mul32 a b = min (a * b) (u32_mod - 1)

-- `u16::from_be_bytes` and `u32::from_be_bytes`.
abbrev pub from_be16 : ℕ → ℕ → ℕ
from_be16 a b = a * 256 + b

abbrev pub from_be32 : ℕ → ℕ → ℕ → ℕ → ℕ
from_be32 a b c d = ((a * 256 + b) * 256 + c) * 256 + d

-- `v.to_be_bytes()`
abbrev pub be16 : ℕ → List ℕ
be16 v = v / 256 % 256 ∷ v % 256 ∷ []

abbrev pub be32 : ℕ → List ℕ
be32 v = v / 2 ^ 24 % 256 ∷ v / 2 ^ 16 % 256 ∷ v / 256 % 256 ∷ v % 256 ∷ []

-- A byte at an index that the caller has found to be in range.
abbrev pub byte_at : List ℕ → ℕ → ℕ
byte_at buf i = get_or buf i 0

abbrev pub read16 : List ℕ → ℕ → ℕ
read16 buf i = from_be16 (byte_at buf i) (byte_at buf (i + 1))

abbrev pub read32 : List ℕ → ℕ → ℕ
read32 buf i =
    from_be32 (byte_at buf i) (byte_at buf (i + 1)) (byte_at buf (i + 2)) (byte_at buf (i + 3))

-- `buf[i..i + 2].copy_from_slice(&v.to_be_bytes())`, and the same for four bytes.
abbrev pub write16 : List ℕ → ℕ → ℕ → List ℕ
write16 buf i v = set (set buf i (v / 256 % 256)) (i + 1) (v % 256)

abbrev pub write32 : List ℕ → ℕ → ℕ → List ℕ
write32 buf i v =
    set
      (set (set (set buf i (v / 2 ^ 24 % 256)) (i + 1) (v / 2 ^ 16 % 256)) (i + 2) (v / 256 % 256))
      (i + 3) (v % 256)

abbrev pub IsByte : ℕ → Type 0
IsByte b = b < 256

abbrev pub AreBytes : List ℕ → Type 0
AreBytes = All IsByte

-- A buffer of at least twelve bytes, the fixed part of an RTP header.
pub data Header : List ℕ → Type 0 where
  header :
      (b0 b1 b2 b3 b4 b5 b6 b7 b8 b9 b10 b11 : ℕ) (rest : List ℕ)
      → Header (b0 ∷ b1 ∷ b2 ∷ b3 ∷ b4 ∷ b5 ∷ b6 ∷ b7 ∷ b8 ∷ b9 ∷ b10 ∷ b11 ∷ rest)

pub length-Header : (buf : List ℕ) → 12 ≤ length buf → Header buf
length-Header (b0 ∷ b1 ∷ b2 ∷ b3 ∷ b4 ∷ b5 ∷ b6 ∷ b7 ∷ b8 ∷ b9 ∷ b10 ∷ b11 ∷ rest) h =
    header b0 b1 b2 b3 b4 b5 b6 b7 b8 b9 b10 b11 rest
length-Header _ h = absurd (omega arith)

pub from_be32-be32 :
    (v : ℕ)
    → v < u32_mod
    → from_be32 (v / 2 ^ 24 % 256) (v / 2 ^ 16 % 256) (v / 256 % 256) (v % 256) ≡ v
from_be32-be32 v h = omega arith

-- Words read from a buffer of bytes.
read_of_Header :
    {buf : List ℕ}
    → Header buf
    → AreBytes buf
    → (read16 buf 2 < u16_mod) × (read32 buf 4 < u32_mod) × (read32 buf 8 < u32_mod)
read_of_Header (header b0 b1 b2 b3 b4 b5 b6 b7 b8 b9 b10 b11 rest) h = omega arith

pub read_bounds :
    (buf : List ℕ)
    → 12 ≤ length buf
    → AreBytes buf
    → (read16 buf 2 < u16_mod) × (read32 buf 4 < u32_mod) × (read32 buf 8 < u32_mod)
read_bounds buf long h = read_of_Header (length-Header buf long) h
