-- ===== src/Simulcast/Laws.antt =====
-- src/room/participant.rs: which packets `SimulcastRewriter` forwards, what they carry, and that
-- the stream does not break where the layer changes.
use oxlens_sfu_server.Prelude.{
  ℕ, ◌≤◌, ◌<◌, ◌≡◌, refl, sym, subst, ◌↔◌, ◌⊎◌, inl, Bool, true, false, List, arith, length, add16,
  sub16, add32, byte_at, read16, read32, drop, u16_mod, u32_mod, AreBytes, Header, header,
  length-Header, read_bounds,
}
use oxlens_sfu_server.Simulcast.{
  SimulcastRewriter, switch_layer, align, write_out, rewrite_accepted, rewrite, reverse_seq,
}

-- The numbers of the rewriter fit their words.
pub record InRange (w : SimulcastRewriter) : Type 0 where
  pub ssrc : w.virtual_ssrc < u32_mod
  pub offset_seq : w.seq_offset < u16_mod
  pub offset_ts : w.ts_offset < u32_mod
  pub last_seq : w.last_out_seq < u16_mod
  pub last_ts : w.last_out_ts < u32_mod

-- A packet is forwarded exactly if it has a whole fixed header and is a keyframe, or the stream
-- runs and waits for none. One that is dropped changes neither the rewriter nor itself.
rewrite-forwards_iff :
    (w : SimulcastRewriter) (buf : List ℕ) (key : Bool)
    → (((rewrite w buf key).2 ≡ true) ↔ (
        (12 ≤ length buf)
        × ((key ≡ true) ⊎ ((w.initialized ≡ true) × (w.pending_keyframe ≡ false)))))
      × (((rewrite w buf key).2 ≡ true) ⊎ (rewrite w buf key ≡ (w, buf, false)))
unfolding rewrite rewrite_accepted
rewrite-forwards_iff w buf key = ((λ h. ground arith, λ (long, free). ground arith), ground arith)

-- The packet `out` is `buf` with other numbers; the first two bytes and all behind the fixed header
-- are kept.
pub record Renumbered (buf out : List ℕ) (ssrc seq ts : ℕ) : Type 0 where
  pub seq_written : read16 out 2 ≡ seq
  pub ts_written : read32 out 4 ≡ ts
  pub ssrc_written : read32 out 8 ≡ ssrc
  pub first_kept : byte_at out 0 ≡ byte_at buf 0
  pub second_kept : byte_at out 1 ≡ byte_at buf 1
  pub rest_kept : drop 12 out ≡ drop 12 buf

write_out-of_Header :
    (w : SimulcastRewriter) (seq ts : ℕ) {buf : List ℕ}
    → Header buf
    → w.virtual_ssrc < u32_mod
    → seq < u16_mod
    → ts < u32_mod
    → Renumbered buf (write_out w buf seq ts) w.virtual_ssrc seq ts
write_out-of_Header w seq ts (header b0 b1 b2 b3 b4 b5 b6 b7 b8 b9 b10 b11 rest) hr hs ht = record {
  seq_written = omega arith;
  ts_written = omega arith;
  ssrc_written = omega arith;
  first_kept = refl;
  second_kept = refl;
  rest_kept = refl;
}

align-InRange : (w : SimulcastRewriter) (seq ts : ℕ) → InRange w → InRange (align w seq ts)
unfolding align
align-InRange w seq ts v = ground arith

unshift16 : (q o : ℕ) → q < u16_mod → o < u16_mod → sub16 (add16 q o) o ≡ q
unshift16 q o hq ho = omega arith

align-virtual_ssrc :
    (w : SimulcastRewriter) (seq ts : ℕ) → (align w seq ts).virtual_ssrc ≡ w.virtual_ssrc
unfolding align
align-virtual_ssrc w seq ts = ground arith

rewrite_accepted-Renumbered :
    (w : SimulcastRewriter) (buf : List ℕ)
    → 12 ≤ length buf
    → InRange w
    → let (w', out, _) = rewrite_accepted w buf in
      Renumbered buf out w.virtual_ssrc w'.last_out_seq w'.last_out_ts
unfolding rewrite_accepted
rewrite_accepted-Renumbered w buf long v =
    let w' = align w (read16 buf 2) (read32 buf 4) in
    let seq = add16 (read16 buf 2) w'.seq_offset in
    let ts = add32 (read32 buf 4) w'.ts_offset in
    let ssrc = align-virtual_ssrc w (read16 buf 2) (read32 buf 4) in
    subst (λ x. Renumbered buf (write_out w' buf seq ts) x seq ts) ssrc
      (write_out-of_Header w' seq ts (length-Header buf long)
        (subst (λ x. x < u32_mod) (sym ssrc) v.ssrc) (omega arith) (omega arith))

accepted :
    (w : SimulcastRewriter) (buf : List ℕ) (key : Bool)
    → (rewrite w buf key).2 ≡ true
    → rewrite w buf key ≡ rewrite_accepted w buf
unfolding rewrite
accepted w buf key sent = ground arith

-- With numbers in the range of their words, a forwarded packet carries the virtual SSRC, and the
-- rewriter remembers its new numbers and stays in range; the NACK mapping takes the new sequence
-- number back to the original one.
pub rewrite-Renumbered :
    (w : SimulcastRewriter) (buf : List ℕ) (key : Bool)
    → InRange w
    → AreBytes buf
    → (rewrite w buf key).2 ≡ true
    → let (w', out, _) = rewrite w buf key in
      Renumbered buf out w.virtual_ssrc w'.last_out_seq w'.last_out_ts
      × (reverse_seq w' (read16 out 2) ≡ read16 buf 2)
      × InRange w'
unfolding rewrite_accepted reverse_seq
rewrite-Renumbered w buf key v bytes sent =
    let long : 12 ≤ length buf = ((rewrite-forwards_iff w buf key).0.0 sent).0 in
    let words = read_bounds buf long bytes in
    let a = align-InRange w (read16 buf 2) (read32 buf 4) v in
    let out = rewrite_accepted-Renumbered w buf long v in
    rw (accepted w buf key sent)
      (out, rw out.seq_written (unshift16 _ _ words.0 a.offset_seq), omega (arith, a))

switch_layer-InRange : (w : SimulcastRewriter) → InRange w → InRange (switch_layer w)
unfolding switch_layer
switch_layer-InRange w v = omega arith

switch_layer-ssrc : (w : SimulcastRewriter) → (switch_layer w).virtual_ssrc ≡ w.virtual_ssrc
unfolding switch_layer
switch_layer-ssrc w = refl

switched_seq :
    (w : SimulcastRewriter) (buf : List ℕ)
    → w.initialized ≡ true
    → read16 buf 2 < u16_mod
    → w.last_out_seq < u16_mod
    → (rewrite_accepted (switch_layer w) buf).0.last_out_seq ≡ add16 w.last_out_seq 1
unfolding rewrite_accepted switch_layer align
switched_seq w buf running hq hl = ground arith

switched_ts :
    (w : SimulcastRewriter) (buf : List ℕ)
    → w.initialized ≡ true
    → read32 buf 4 < u32_mod
    → w.last_out_ts < u32_mod
    → (rewrite_accepted (switch_layer w) buf).0.last_out_ts ≡ add32 w.last_out_ts 1
unfolding rewrite_accepted switch_layer align
switched_ts w buf running ht hl = ground arith

-- With numbers in the range of their words, the first keyframe after a switch of layers in a stream
-- that runs is forwarded as the successor of the last packet sent: the next sequence number and the
-- next tick, whatever numbers the new layer uses.
rewrite-switch_layer :
    (w : SimulcastRewriter) (buf : List ℕ)
    → InRange w
    → AreBytes buf
    → 12 ≤ length buf
    → w.initialized ≡ true
    → let (_, out, forwarded) = rewrite (switch_layer w) buf true in
      (forwarded ≡ true)
      × Renumbered buf out w.virtual_ssrc (add16 w.last_out_seq 1) (add32 w.last_out_ts 1)
unfolding switch_layer
rewrite-switch_layer w buf v bytes long running =
    let sent : (rewrite (switch_layer w) buf true).2 ≡ true =
      (rewrite-forwards_iff (switch_layer w) buf true).0.1 (long, inl refl) in
    let out = rewrite_accepted-Renumbered (switch_layer w) buf long (switch_layer-InRange w v) in
    let words = read_bounds buf long bytes in
    (
      sent,
      rw (accepted (switch_layer w) buf true sent) (
          rw
            (
              switched_seq w buf running words.0 v.last_seq,
              switched_ts w buf running words.1 v.last_ts,
              switch_layer-ssrc w,
            )
            at out),
    )
