-- ===== src/Rtcp/Mbcp/Utf8.antt =====
-- The bytes that Rust's `String::from_utf8` accepts: the well-formed sequences of the Unicode
-- standard (its table 3-7). `parse_mbcp_app` of src/transport/udp/rtcp.rs calls it.
use oxlens_sfu_server.Prelude.{
  ℕ, Bool, true, false, ◌&&◌, ◌||◌, List, [], ◌∷◌, ◌≡◌, refl, leb, ◌==◌, if◌then◌else◌,
}

abbrev within : ℕ → ℕ → ℕ → Bool
within lo hi b = leb lo b && leb b hi

-- A continuation byte.
abbrev tail_byte : ℕ → Bool
tail_byte = within 0x80 0xbf

two_bytes : ℕ → ℕ → Bool
two_bytes a b = within 0xc2 0xdf a && tail_byte b

three_bytes : ℕ → ℕ → ℕ → Bool
three_bytes a b c =
    tail_byte c
    && ((a == 0xe0 && within 0xa0 0xbf b)
        || ((within 0xe1 0xec a && tail_byte b)
            || ((a == 0xed && within 0x80 0x9f b) || (within 0xee 0xef a && tail_byte b))))

four_bytes : ℕ → ℕ → ℕ → ℕ → Bool
four_bytes a b c d =
    (tail_byte c && tail_byte d)
    && ((a == 0xf0 && within 0x90 0xbf b)
        || ((within 0xf1 0xf3 a && tail_byte b) || (a == 0xf4 && within 0x80 0x8f b)))

unfoldable pub is_utf8 : List ℕ → Bool
unfolding two_bytes three_bytes four_bytes
is_utf8 [] = true
is_utf8 (a ∷ []) = leb a 0x7f
is_utf8 (a ∷ b ∷ []) = (leb a 0x7f && is_utf8 (b ∷ [])) || two_bytes a b
is_utf8 (a ∷ b ∷ c ∷ []) =
    (leb a 0x7f && is_utf8 (b ∷ c ∷ []))
    || ((two_bytes a b && is_utf8 (c ∷ [])) || three_bytes a b c)
is_utf8 (a ∷ b ∷ c ∷ d ∷ rest) =
    let one = is_utf8 (b ∷ c ∷ d ∷ rest) in
    let two = is_utf8 (c ∷ d ∷ rest) in
    let three = is_utf8 (d ∷ rest) in
    let four = is_utf8 rest in
    if leb a 0x7f
    then one
    else if two_bytes a b
    then two
    else if three_bytes a b c
    then three
    else four_bytes a b c d && four

-- "aé한"
accepts : is_utf8 (0x61 ∷ 0xc3 ∷ 0xa9 ∷ 0xed ∷ 0x95 ∷ 0x9c ∷ []) ≡ true
unfolding is_utf8
accepts = refl

-- A surrogate.
rejects : is_utf8 (0xed ∷ 0xa0 ∷ 0x80 ∷ []) ≡ false
unfolding is_utf8
rejects = refl
