-- ===== src/Simulcast/Tests.antt =====
-- Runs of `SimulcastRewriter` of src/room/participant.rs, and the theorems at concrete inputs.
use oxlens_sfu_server.Prelude.{ℕ, ◌≡◌, refl, true, false, List, [], ◌∷◌, arith, read16}
use oxlens_sfu_server.Simulcast.Laws.{InRange, Renumbered, rewrite-Renumbered}
use oxlens_sfu_server.Simulcast.{
  SimulcastRewriter, new, align, rewrite_accepted, rewrite, reverse_seq,
}

-- A packet with sequence number 300.
abbrev packet : List ℕ
packet = 0x80 ∷ 96 ∷ 1 ∷ 44 ∷ 0 ∷ 0 ∷ 0 ∷ 50 ∷ 0 ∷ 0 ∷ 0 ∷ 9 ∷ 0xaa ∷ []

-- A stream whose last packet had the highest sequence number.
abbrev running : SimulcastRewriter
unfolding new
running = record (new 5) {
  seq_offset = 10;
  last_out_seq = 65535;
  last_out_ts = 900;
  initialized = true;
}

running-InRange : InRange running
unfolding new
running-InRange = omega arith

first_keyframe : read16 (rewrite (new 5) packet true).1 2 ≡ 300
unfolding new rewrite rewrite_accepted align
first_keyframe = refl

rewrite-Renumbered_example :
    let (w, out, _) = rewrite running packet false in
    Renumbered packet out 5 w.last_out_seq w.last_out_ts
    × (reverse_seq w (read16 out 2) ≡ 300)
    × InRange w
unfolding new rewrite rewrite_accepted
rewrite-Renumbered_example =
    rewrite-Renumbered running packet false running-InRange (omega arith) refl
