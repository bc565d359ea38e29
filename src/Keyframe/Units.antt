-- ===== src/Keyframe/Units.antt =====
-- src/room/ptt_rewriter.rs: the search of `is_h264_keyframe` through an aggregation packet.
use oxlens_sfu_server.Prelude.{
  ℕ, zero, suc, ◌+◌, ◌%◌, ◌<◌, ◌≤◌, ◌≡◌, refl, ap, subst, ◌∙◌, Bool, true, false, ◌||◌, some, List,
  [], ◌∷◌, ◌++◌, append_assoc, arith, length, length-append, get_or-append_right,
  get_or-append_left, byte_at, read16, be16, ltb, leb,
}
use oxlens_sfu_server.Keyframe.{
  rtp_payload_offset, is_key_unit, has_key_unit, h264_at, is_h264_keyframe,
}

-- A unit that an aggregation packet can hold: not empty, and its size fits 16 bits.
abbrev pub AreUnits : List (List ℕ) → Type 0
AreUnits [] = Unit {0}
AreUnits (u ∷ us) = ((0 < length u) × (length u < 65536)) × AreUnits us

-- Each unit with its size before it.
unfoldable pub aggregate : List (List ℕ) → List ℕ
aggregate [] = []
aggregate (u ∷ us) = be16 (length u) ++ (u ++ aggregate us)

-- Whether one of the units is a parameter set (SPS) or a key picture (IDR).
unfoldable pub some_key : List (List ℕ) → Bool
some_key [] = false
some_key (u ∷ us) = is_key_unit (byte_at u 0 % 32) || some_key us

module _ (pre u more : List ℕ) where
  abbrev joined : List ℕ
  joined = pre ++ (be16 (length u) ++ (u ++ more))

  byte_at-joined :
      (i k : ℕ) → i ≡ length pre + k → byte_at joined i ≡ byte_at (be16 (length u) ++ (u ++ more)) k
  byte_at-joined i k e =
      ap (byte_at joined) e ∙ get_or-append_right pre (be16 (length u) ++ (u ++ more)) k 0

  size-joined : length u < 65536 → read16 joined (length pre) ≡ length u
  size-joined small =
      omega
        (arith, byte_at-joined (length pre) 0 (omega arith), byte_at-joined (length pre + 1) 1 refl)

  type-joined : 0 < length u → byte_at joined (length pre + 2) ≡ byte_at u 0
  type-joined long = byte_at-joined (length pre + 2) 2 refl ∙ get_or-append_left u more 0 0 long

  length-joined : length joined ≡ length pre + (2 + (length u + length more))
  length-joined =
      omega (arith, length-append pre (be16 (length u) ++ (u ++ more)), length-append u more)

-- The search behind a unit, which is the search behind a longer prefix.
later_units :
    (pre u more : List ℕ) (fuel : ℕ) (answer : Bool)
    → has_key_unit fuel
        ((pre ++ (be16 (length u) ++ u)) ++ more)
        (length (pre ++ (be16 (length u) ++ u)))
      ≡ answer
    → has_key_unit fuel (joined pre u more) (length pre + 2 + length u) ≡ answer
later_units pre u more fuel answer ih =
    let moved : length (pre ++ (be16 (length u) ++ u)) ≡ length pre + 2 + length u =
      omega (arith, length-append pre (be16 (length u) ++ u)) in
    subst (λ k. has_key_unit fuel (joined pre u more) k ≡ answer) moved
      (subst (λ b. has_key_unit fuel b (length (pre ++ (be16 (length u) ++ u))) ≡ answer)
        (append_assoc pre (be16 (length u) ++ u) more) ih)

-- One round of the search.
one_unit :
    (pre u more : List ℕ) (fuel : ℕ) (answer : Bool)
    → 0 < length u
    → length u < 65536
    → has_key_unit fuel (joined pre u more) (length pre + 2 + length u) ≡ answer
    → has_key_unit (suc fuel) (joined pre u more) (length pre)
      ≡ (is_key_unit (byte_at u 0 % 32) || answer)
unfolding has_key_unit
one_unit pre u more fuel answer long small rest =
    let size = size-joined pre u more small in
    let total = length-joined pre u more in
    let reaches : leb (length (joined pre u more)) (length pre + 2) ≡ false =
      ground (arith, total) in
    let inside : ltb (length (joined pre u more)) (length pre + 2 + length u) ≡ false =
      ground (arith, total) in
    rw (reaches, type-joined pre u more long, size, inside, rest) (ground arith)

has_key_unit-aggregate :
    (us : List (List ℕ)) (pre : List ℕ) (fuel : ℕ)
    → AreUnits us
    → length (aggregate us) ≤ fuel
    → has_key_unit fuel (pre ++ aggregate us) (length pre) ≡ some_key us
unfolding has_key_unit aggregate some_key
has_key_unit-aggregate [] pre zero h enough = refl
has_key_unit-aggregate [] pre (suc fuel) h enough =
    let ended : leb (length (pre ++ [])) (length pre + 2) ≡ true =
      ground (arith, length-append pre []) in
    rw ended refl
has_key_unit-aggregate (u ∷ us) pre zero h enough = absurd (omega arith)
has_key_unit-aggregate (u ∷ us) pre (suc fuel) h enough =
    let less : length (aggregate us) ≤ fuel = omega (arith, length-append u (aggregate us)) in
    one_unit pre u (aggregate us) fuel (some_key us) h.0.0 h.0.1 (
      later_units pre u (aggregate us) fuel (some_key us)
        (has_key_unit-aggregate us (pre ++ (be16 (length u) ++ u)) fuel h.1 less))

-- An aggregation packet, whose payload behind `head` starts with a byte of type 24 and holds units
-- of 1 to 65535 bytes, counts as a key frame exactly if one of the units is a parameter set or a
-- key picture, wherever it stands.
is_h264_keyframe-aggregate :
    (head : List ℕ) (b : ℕ) (us : List (List ℕ))
    → AreUnits us
    → b % 32 ≡ 24
    → rtp_payload_offset (head ++ (b ∷ aggregate us)) ≡ some (length head)
    → is_h264_keyframe (head ++ (b ∷ aggregate us)) ≡ some_key us
unfolding is_h264_keyframe
is_h264_keyframe-aggregate head b us h type start =
    let packet = head ++ (b ∷ aggregate us) in
    let first : byte_at packet (length head) ≡ b =
      ap (byte_at packet) (omega arith) ∙ get_or-append_right head (b ∷ aggregate us) 0 0 in
    let enough : length (aggregate us) ≤ length packet =
      omega (arith, length-append head (b ∷ aggregate us)) in
    let moved : length (head ++ (b ∷ [])) ≡ length head + 1 =
      omega (arith, length-append head (b ∷ [])) in
    let found = has_key_unit-aggregate us (head ++ (b ∷ [])) (length packet) h enough in
    let search : has_key_unit (length packet) packet (length head + 1) ≡ some_key us =
      subst (λ k. has_key_unit (length packet) packet k ≡ some_key us) moved
        (subst (λ t. has_key_unit (length packet) t (length (head ++ (b ∷ []))) ≡ some_key us)
          (append_assoc head (b ∷ []) (aggregate us)) found) in
    ap (h264_at packet) start ∙ rw (first, type) search
