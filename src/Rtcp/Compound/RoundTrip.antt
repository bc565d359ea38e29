-- ===== src/Rtcp/Compound/RoundTrip.antt =====
-- src/transport/udp/rtcp.rs: the split of an assembled compound packet finds the blocks that it was
-- assembled from, each with its place, in order.
use oxlens_sfu_server.Prelude.{
  ℕ, zero, suc, ◌+◌, ◌*◌, ◌%◌, ◌≤◌, ◌<◌, ◌≡◌, refl, ap, ◌∙◌, Bool, true, ◌&&◌, ◌||◌, none, some,
  List, [], ◌∷◌, ◌++◌, append_assoc, arith, length, length-append, take, drop, get_or-append_right,
  get_or-append_left, take-length-append, drop-length-append, byte_at, read16, read32, ◌==◌,
  if◌then◌else◌,
}
use oxlens_sfu_server.Rtcp.Mbcp.{MbcpMessage, parse_mbcp_app}
use oxlens_sfu_server.Rtcp.Compound.{
  RtcpBlockRef, CompoundRtcpParsed, no_blocks, block_len, media_ssrc_at, add_block, fits,
  split_from, split_compound_rtcp, assemble_compound,
}

-- A block with both SSRCs whose length field is right.
pub record IsBlock (p : List ℕ) : Type 0 where
  pub long : 12 ≤ length p
  pub counted : (read16 p 2 + 1) * 4 ≡ length p

abbrev pub AreBlocks : List (List ℕ) → Type 0
AreBlocks [] = Unit {0}
AreBlocks (p ∷ ps) = IsBlock p × AreBlocks ps

abbrev pub has_type : ℕ → List ℕ → Bool
has_type pt p = byte_at p 1 == pt

abbrev pub has_format : ℕ → List ℕ → Bool
has_format fmt p = byte_at p 0 % 32 == fmt

-- The Generic NACKs.
abbrev pub nacks : List (List ℕ) → List (List ℕ)
nacks [] = []
nacks (p ∷ ps) = if has_type 205 p && has_format 1 p then p ∷ nacks ps else nacks ps

-- The floor messages among the APP blocks.
abbrev pub messages : List (List ℕ) → List MbcpMessage
messages [] = []
messages (p ∷ ps) =
    if has_type 204 p
    then elim (parse_mbcp_app p) [ none ↦ messages ps | some m ↦ m ∷ messages ps ]
    else messages ps

-- The places of the blocks that pass a test, the first block standing at `offset`.
abbrev pub places : (List ℕ → Bool) → ℕ → List (List ℕ) → List RtcpBlockRef
places test offset [] = []
places test offset (p ∷ ps) =
    if test p
    then record { offset = offset; size = length p; media_ssrc = read32 p 8 }
      ∷ places test (offset + length p) ps
    else places test (offset + length p) ps

-- PLI and REMB.
abbrev pub is_relayed : List ℕ → Bool
is_relayed p = has_type 206 p && (has_format 1 p || has_format 15 p)

unfoldable pub expected : ℕ → List (List ℕ) → CompoundRtcpParsed
expected offset ps = record {
  nack_blocks = nacks ps;
  relay_blocks = places is_relayed offset ps;
  mbcp_blocks = messages ps;
  sr_blocks = places (has_type 200) offset ps;
  rr_blocks = places (has_type 201) offset ps;
}

-- One round of the loop, from what it reads at `offset`.
add_block-expected :
    (buf p : List ℕ) (offset : ℕ) (ps : List (List ℕ))
    → byte_at buf offset ≡ byte_at p 0
    → byte_at buf (offset + 1) ≡ byte_at p 1
    → block_len buf offset ≡ length p
    → media_ssrc_at buf offset ≡ read32 p 8
    → take (length p) (drop offset buf) ≡ p
    → add_block buf offset (expected (offset + length p) ps) ≡ expected offset (p ∷ ps)
unfolding add_block expected
add_block-expected buf p offset ps e0 e1 el em et = simp (e0, e1, el, em, et) (ground arith)

module _ (pre p more : List ℕ) where
  abbrev joined : List ℕ
  joined = pre ++ (p ++ more)

  byte_at-joined : (k : ℕ) → k < length p → byte_at joined (length pre + k) ≡ byte_at p k
  byte_at-joined k h = get_or-append_right pre (p ++ more) k 0 ∙ get_or-append_left p more k 0 h

  byte_at-shift : (i k : ℕ) → i ≡ length pre + k → k < length p → byte_at joined i ≡ byte_at p k
  byte_at-shift i k e h = ap (byte_at joined) e ∙ byte_at-joined k h

  block_len-joined : IsBlock p → block_len joined (length pre) ≡ length p
  block_len-joined b = omega (
    arith,
    b,
    byte_at-joined 2 (omega (arith, b)),
    byte_at-shift (length pre + 2 + 1) 3 (omega arith) (omega (arith, b)),
  )

  media_ssrc-joined : IsBlock p → media_ssrc_at joined (length pre) ≡ read32 p 8
  media_ssrc-joined b = ground (
    arith,
    length-append pre (p ++ more),
    length-append p more,
    byte_at-joined 8 (omega (arith, b)),
    byte_at-shift (length pre + 8 + 1) 9 (omega arith) (omega (arith, b)),
    byte_at-shift (length pre + 8 + 2) 10 (omega arith) (omega (arith, b)),
    byte_at-shift (length pre + 8 + 3) 11 (omega arith) (omega (arith, b)),
  )

  take-joined : take (length p) (drop (length pre) joined) ≡ p
  take-joined = rw (drop-length-append pre (p ++ more)) (take-length-append p more)

  fits-joined : IsBlock p → fits joined (length pre) ≡ true
  fits-joined b =
      ground (arith, length-append pre (p ++ more), length-append p more, block_len-joined b)

later-expected :
    (p : List ℕ) (ps : List (List ℕ)) (pre : List ℕ) (fuel : ℕ)
    → IsBlock p
    → split_from fuel ((pre ++ p) ++ assemble_compound ps) (length (pre ++ p))
      ≡ expected (length (pre ++ p)) ps
    → let buf = pre ++ (p ++ assemble_compound ps) in
      add_block buf (length pre) (split_from fuel buf (length pre + length p))
      ≡ expected (length pre) (p ∷ ps)
later-expected p ps pre fuel b ih =
    let more = assemble_compound ps in
    let later = rw (append_assoc, length-append pre p) at ih in
    rw later (
      add_block-expected (joined pre p more) p (length pre) ps
        (byte_at-shift pre p more (length pre) 0 (omega arith) (omega (arith, b)))
        (byte_at-joined pre p more 1 (omega (arith, b))) (block_len-joined pre p more b)
        (media_ssrc-joined pre p more b) (take-joined pre p more))

split_from-expected :
    (ps : List (List ℕ)) (pre : List ℕ) (fuel : ℕ)
    → AreBlocks ps
    → length (assemble_compound ps) ≤ fuel
    → split_from fuel (pre ++ assemble_compound ps) (length pre) ≡ expected (length pre) ps
unfolding split_from assemble_compound no_blocks expected
split_from-expected [] pre zero bs h = refl
split_from-expected [] pre (suc fuel) bs h = ground (arith, length-append pre [])
split_from-expected (p ∷ ps) pre zero bs h =
    absurd (omega (arith, length-append p (assemble_compound ps), bs.0.long))
split_from-expected (p ∷ ps) pre (suc fuel) bs h =
    rw
      (
        fits-joined pre p (assemble_compound ps) bs.0,
        block_len-joined pre p (assemble_compound ps) bs.0,
      )
      (later-expected p ps pre fuel bs.0 (split_from-expected ps (pre ++ p) fuel bs.1 shorter))
  where
    shorter : length (assemble_compound ps) ≤ fuel
    shorter = omega (arith, length-append p (assemble_compound ps), bs.0.long)

-- The split of a compound packet, assembled from blocks of 12 bytes or more whose length fields are
-- right, reports exactly the blocks that went into it, in order, with their offsets, lengths and
-- media SSRCs: the Generic NACKs, the floor messages, the sender and receiver reports, and the PLI
-- and REMB blocks that are to be relayed; other blocks are dropped.
pub split-assemble_compound :
    (ps : List (List ℕ)) → AreBlocks ps → split_compound_rtcp (assemble_compound ps) ≡ expected 0 ps
unfolding split_compound_rtcp
split-assemble_compound ps bs =
    split_from-expected ps [] (length (assemble_compound ps)) bs (omega arith)
