-- ===== src/Twcc/Size.antt =====
-- src/transport/udp/twcc.rs: the size of a feedback packet against its content.
use oxlens_sfu_server.Prelude.{
  ℕ, zero, suc, ◌+◌, ◌-◌, ◌*◌, ◌/◌, ◌%◌, ◌<◌, ◌≡◌, refl, ◌∙◌, Bool, true, false, inl, inr,
  Bool-cases, List, [], ◌∷◌, ◌++◌, arith, length, length-append, length-replicate, length-set,
  replicate, set, get_or, byte_at, read16, ltb, ◌==◌, if◌then◌else◌,
}
use oxlens_sfu_server.Twcc.Feedback.{body_len, padded_body, pad_count, unpadded, feedback_packet}

get_or-set_self : (xs : List ℕ) (i v : ℕ) → i < length xs → get_or (set xs i v) i 0 ≡ v
get_or-set_self [] i v h = absurd (omega arith)
get_or-set_self (x ∷ xs) zero v h = refl
get_or-set_self (x ∷ xs) (suc i) v h = get_or-set_self xs i v (omega arith)

pub get_or-set_ne : (xs : List ℕ) (i j v : ℕ) → j < i → get_or (set xs i v) j 0 ≡ get_or xs j 0
get_or-set_ne [] i j v h = refl
get_or-set_ne (x ∷ xs) zero j v h = absurd (omega arith)
get_or-set_ne (x ∷ xs) (suc i) zero v h = refl
get_or-set_ne (x ∷ xs) (suc i) (suc j) v h = get_or-set_ne xs i j v (omega arith)

-- The padding that a receiver takes off: where the flag is set, the last byte counts it.
abbrev pub declared_padding : List ℕ → ℕ
declared_padding packet =
    if byte_at packet 0 / 32 % 2 == 1 then byte_at packet (length packet - 1) else 0

module _ (media_ssrc base_seq count reference_time fb : ℕ) (body : List ℕ) where
  abbrev content : List ℕ
  content = unpadded media_ssrc base_seq count reference_time fb body

  -- The content, and the zeros behind it.
  unfoldable filled : List ℕ
  filled = content ++ replicate (4 + padded_body (length body) - length content) 0

  abbrev is_padded : Bool
  is_padded = ltb (body_len (length body)) (padded_body (length body))

  length-filled : length filled ≡ 4 + padded_body (length body)
  unfolding filled
  length-filled =
      let zeros = 4 + padded_body (length body) - length content in
      omega (arith, length-append content (replicate zeros 0), length-replicate {A = ℕ} zeros 0)

  filled-flag : byte_at filled 0 ≡ (if is_padded then 0xaf else 0x8f)
  unfolding filled
  filled-flag = refl

  filled-words : length body < 260000 → read16 filled 2 ≡ padded_body (length body) / 4
  unfolding filled
  filled-words small = omega arith

  feedback_packet-filled :
      feedback_packet media_ssrc base_seq count reference_time fb body
      ≡ (if is_padded then set filled (length filled - 1) (pad_count (length body)) else filled)
  unfolding feedback_packet filled
  feedback_packet-filled = refl

  size_of_padded :
      length body < 260000
      → is_padded ≡ true
      → let packet = set filled (length filled - 1) (pad_count (length body)) in
        ((read16 packet 2 + 1) * 4 ≡ length packet)
        × (length packet ≡ 20 + length body + declared_padding packet + 4)
  size_of_padded small padded =
      let last = length filled - 1 in
      let v = pad_count (length body) in
      let at : (j : ℕ) → j < 4 → get_or (set filled last v) j 0 ≡ get_or filled j 0 =
        λ j lt. get_or-set_ne filled last j v (omega (arith, length-filled)) in
      let size = length-set filled last v in
      let counted = get_or-set_self filled last v (omega (arith, length-filled)) in
      let flag : byte_at (set filled last v) 0 ≡ 0xaf =
        at 0 (omega arith) ∙ filled-flag ∙ rw padded refl in
      (
        omega (
          arith,
          at 2 (omega arith),
          at 3 (omega arith),
          filled-words small,
          size,
          length-filled,
        ),
        rw (flag, size, counted) (ground (arith, length-filled)),
      )

  size_of_whole :
      length body < 260000
      → is_padded ≡ false
      → ((read16 filled 2 + 1) * 4 ≡ length filled)
        × (length filled ≡ 20 + length body + declared_padding filled + 4)
  size_of_whole small whole =
      let flag : byte_at filled 0 ≡ 0x8f = filled-flag ∙ rw whole refl in
      (omega (arith, filled-words small, length-filled), rw flag (ground (arith, length-filled)))

  -- The length field of a feedback packet with less than 260000 bytes of chunks and deltas counts
  -- its words but one. But of the bytes behind its content, which is twenty bytes, the chunks and
  -- the deltas, four are never declared as padding: the body is taken to be four bytes longer than
  -- it is.
  pub feedback_packet-Size :
      length body < 260000
      → let packet = feedback_packet media_ssrc base_seq count reference_time fb body in
        ((read16 packet 2 + 1) * 4 ≡ length packet)
        × (length packet ≡ 20 + length body + declared_padding packet + 4)
  feedback_packet-Size small = elim (Bool-cases is_padded) [
    | inl padded ↦ rw (feedback_packet-filled, padded) (size_of_padded small padded)
    | inr whole ↦ rw (feedback_packet-filled, whole) (size_of_whole small whole)
  ]
