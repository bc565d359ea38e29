-- ===== src/Simulcast.antt =====
-- src/room/participant.rs: `SimulcastRewriter`, which gives one subscriber a single video stream
-- over the layers of a publisher. A method on `&mut self` returns the new rewriter. An `Instant` is
-- a number of nanoseconds, and the clock is an argument.
pub mod Laws
mod Tests
use oxlens_sfu_server.Prelude.{
  ℕ, ◌+◌, ◌-◌, ◌*◌, Bool, true, false, not, ◌&&◌, Option, none, some, List, ltb, leb, if◌then◌else◌,
  length, add16, sub16, add32, sub32, read16, read32, write16, write32,
}

pub record SimulcastRewriter : Type 0 where
  pub virtual_ssrc : ℕ
  pub seq_offset : ℕ
  pub ts_offset : ℕ
  pub last_out_seq : ℕ
  pub last_out_ts : ℕ
  pub pending_keyframe : Bool
  pub initialized : Bool
  pub pli_sent_at : Option ℕ

unfoldable pub new : ℕ → SimulcastRewriter
new ssrc = record {
  virtual_ssrc = ssrc;
  seq_offset = 0;
  ts_offset = 0;
  last_out_seq = 0;
  last_out_ts = 0;
  pending_keyframe = false;
  initialized = false;
  pli_sent_at = none;
}

-- `t.elapsed() >= Duration::from_secs(2)`
unfoldable pub needs_pli_retry : SimulcastRewriter → ℕ → Bool
needs_pli_retry w now =
    if w.initialized
    then false
    else elim w.pli_sent_at [ none ↦ true | some t ↦ leb (2 * 1000000000) (now - t) ]

unfoldable pub mark_pli_sent : SimulcastRewriter → ℕ → SimulcastRewriter
mark_pli_sent w now = record w { pli_sent_at = some now }

unfoldable pub switch_layer : SimulcastRewriter → SimulcastRewriter
switch_layer w = record w { pending_keyframe = true }

-- The offsets of the packet at hand: the first keyframe starts at 0, the first one after a switch
-- of layers makes the output follow the last packet, any other packet keeps them.
unfoldable pub align : SimulcastRewriter → ℕ → ℕ → SimulcastRewriter
align w seq ts =
    if not w.initialized
    then record w { seq_offset = 0; ts_offset = 0; initialized = true; pending_keyframe = false }
    else if w.pending_keyframe
    then record w {
      seq_offset = sub16 (add16 w.last_out_seq 1) seq;
      ts_offset = sub32 (add32 w.last_out_ts 1) ts;
      pending_keyframe = false;
    }
    else w

-- The writes of SSRC, sequence number and timestamp, in the source's order.
abbrev pub write_out : SimulcastRewriter → List ℕ → ℕ → ℕ → List ℕ
write_out w buf seq ts = write32 (write16 (write32 buf 8 w.virtual_ssrc) 2 seq) 4 ts

-- The part of `rewrite` behind the checks.
unfoldable pub rewrite_accepted : SimulcastRewriter → List ℕ → SimulcastRewriter × List ℕ × Bool
rewrite_accepted w buf =
    let w' = align w (read16 buf 2) (read32 buf 4) in
    let seq = add16 (read16 buf 2) w'.seq_offset in
    let ts = add32 (read32 buf 4) w'.ts_offset in
    (record w' { last_out_seq = seq; last_out_ts = ts }, write_out w' buf seq ts, true)

-- The result is `true` where the packet is to be forwarded.
unfoldable pub rewrite : SimulcastRewriter → List ℕ → Bool → SimulcastRewriter × List ℕ × Bool
rewrite w buf is_keyframe =
    if ltb (length buf) 12
    then (w, buf, false)
    else if not w.initialized && not is_keyframe
    then (w, buf, false)
    else if (w.initialized && w.pending_keyframe) && not is_keyframe
    then (w, buf, false)
    else rewrite_accepted w buf

unfoldable pub reverse_seq : SimulcastRewriter → ℕ → ℕ
reverse_seq w v = sub16 v w.seq_offset
