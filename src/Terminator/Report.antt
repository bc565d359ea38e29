-- ===== src/Terminator/Report.antt =====
-- src/transport/udp/rtcp_terminator.rs: the receiver report packet (`build_receiver_report`), and
-- the blocks that its receiver reads from it. The source writes the fields into a zeroed buffer in
-- order and leaves no gap; here they are joined.
use oxlens_sfu_server.Prelude.{
  ℕ, zero, suc, ◌+◌, ◌-◌, ◌*◌, ◌/◌, ◌%◌, ◌^◌, ◌<◌, min, ◌≡◌, refl, ap, ◌∙◌, List, [], ◌∷◌, ◌++◌,
  arith, All, length, take, drop, byte_at, read16, read32, be16, be32, u32_mod, length-take,
}
use oxlens_sfu_server.Terminator.{RrReportBlock}

-- `block.cumulative_lost & 0x00FFFFFF`, in three bytes.
abbrev pub be24 : ℕ → List ℕ
be24 v = v % 2 ^ 24 / 65536 % 256 ∷ v % 2 ^ 24 / 256 % 256 ∷ v % 2 ^ 24 % 256 ∷ []

abbrev pub block_bytes : RrReportBlock → List ℕ
block_bytes b =
    be32 b.ssrc
    ++ (b.fraction_lost
        ∷ (be24 b.cumulative_lost
            ++ (be32 b.extended_highest_seq
                ++ (be32 b.jitter ++ (be32 b.last_sr ++ be32 b.delay_since_last_sr)))))

unfoldable pub blocks_bytes : List RrReportBlock → List ℕ
blocks_bytes [] = []
blocks_bytes (b ∷ bs) = block_bytes b ++ blocks_bytes bs

unfoldable pub build_receiver_report : ℕ → List RrReportBlock → List ℕ
build_receiver_report sender_ssrc blocks =
    let rc = min (length blocks) 31 in
    let total_len = 8 + 24 * rc in
    (128 + rc)
    ∷ 201
    ∷ (be16 (total_len / 4 - 1) ++ (be32 sender_ssrc ++ blocks_bytes (take rc blocks)))

-- The fields fit their widths.
abbrev pub IsInRange : RrReportBlock → Type 0
IsInRange b =
    (b.ssrc < u32_mod)
    × (b.fraction_lost < 256)
    × (b.cumulative_lost < 2 ^ 24)
    × (b.extended_highest_seq < u32_mod)
    × (b.jitter < u32_mod)
    × (b.last_sr < u32_mod)
    × (b.delay_since_last_sr < u32_mod)

-- The reading of RFC 3550: the block at the start of a buffer, and `n` blocks.
abbrev pub read_block : List ℕ → RrReportBlock
read_block buf = record {
  ssrc = read32 buf 0;
  fraction_lost = byte_at buf 4;
  cumulative_lost = (byte_at buf 5 * 256 + byte_at buf 6) * 256 + byte_at buf 7;
  extended_highest_seq = read32 buf 8;
  jitter = read32 buf 12;
  last_sr = read32 buf 16;
  delay_since_last_sr = read32 buf 20;
}

unfoldable pub read_blocks : ℕ → List ℕ → List RrReportBlock
read_blocks zero buf = []
read_blocks (suc n) buf = read_block buf ∷ read_blocks n (drop 24 buf)

read_block_lem :
    (b : RrReportBlock) (rest : List ℕ) → IsInRange b → read_block (block_bytes b ++ rest) ≡ b
read_block_lem b rest h = ground arith

read_blocks_lem :
    (bs : List RrReportBlock) → All IsInRange bs → read_blocks (length bs) (blocks_bytes bs) ≡ bs
unfolding read_blocks blocks_bytes
read_blocks_lem [] h = refl
read_blocks_lem (b ∷ bs) h =
    rw (read_block_lem b (blocks_bytes bs) h.0) (ap (◌∷◌ b) (read_blocks_lem bs h.1))

length-blocks_bytes : (bs : List RrReportBlock) → length (blocks_bytes bs) ≡ 24 * length bs
unfolding blocks_bytes
length-blocks_bytes [] = refl
length-blocks_bytes (b ∷ bs) = omega (arith, length-blocks_bytes bs)

All-take {ℓ κ} : {A : Type ℓ} (P : A → Type κ) (n : ℕ) (xs : List A) → All P xs → All P (take n xs)
All-take P zero xs h = tt
All-take P (suc n) [] h = tt
All-take P (suc n) (x ∷ xs) h = (h.0, All-take P n xs h.1)

take-min {ℓ} : {A : Type ℓ} (xs : List A) (n : ℕ) → take (min (length xs) n) xs ≡ take n xs
take-min [] zero = refl
take-min [] (suc n) = ap (λ k. take k []) (none_left n)
  where
    none_left : (n : ℕ) → min 0 (suc n) ≡ 0
    none_left n = omega arith
take-min (x ∷ xs) zero = ap (λ k. take k (x ∷ xs)) (none_wanted (length xs))
  where
    none_wanted : (a : ℕ) → min (suc a) 0 ≡ 0
    none_wanted a = omega arith
take-min (x ∷ xs) (suc n) =
    ap (λ k. take k (x ∷ xs)) (one_more (length xs) n) ∙ ap (◌∷◌ x) (take-min xs n)
  where
    one_more : (a n : ℕ) → min (suc a) (suc n) ≡ suc (min a n)
    one_more a n = omega arith

-- A receiver report on blocks whose fields fit their widths carries the first 31 of them, all if
-- there are no more: its reader finds their number in the first byte, the sender's SSRC (of 32
-- bits), and every field of each block. The length field counts the words of the packet but one.
read-build_receiver_report :
    (sender_ssrc : ℕ) (blocks : List RrReportBlock)
    → sender_ssrc < u32_mod
    → All IsInRange blocks
    → let rr = build_receiver_report sender_ssrc blocks in
      (read_blocks (byte_at rr 0 % 32) (drop 8 rr) ≡ take 31 blocks)
      × (read32 rr 4 ≡ sender_ssrc)
      × ((read16 rr 2 + 1) * 4 ≡ length rr)
unfolding build_receiver_report
read-build_receiver_report sender_ssrc blocks hs h =
    let rc = min (length blocks) 31 in
    let held = length-take rc blocks in
    let counted : (128 + rc) % 32 ≡ length (take rc blocks) = omega (arith, held) in
    let all_read = read_blocks_lem (take rc blocks) (All-take IsInRange rc blocks h) in
    (
      rw (counted, all_read) (take-min blocks 31),
      omega arith,
      omega (arith, held, length-blocks_bytes (take rc blocks)),
    )
