-- ===== src/Ptt/Continuity.antt =====
-- src/room/ptt_rewriter.rs: the outgoing stream has no seam where the speaker changes, and the
-- mappings back and of timestamps agree with what was sent.
use oxlens_sfu_server.Prelude.{
  ℕ, ◌≤◌, ◌<◌, String, ◌≡◌, refl, sym, ◌⊎◌, Bool, true, false, not, ◌&&◌, some, List, arith, length,
  add16, sub16, add32, read16, read32, u16_mod, u32_mod, AreBytes, read_bounds, if◌then◌else◌,
}
use oxlens_sfu_server.Ptt.Gate.{InRange, rewrite-passes, begin_stream-InRange, rewrite-ok_iff}
use oxlens_sfu_server.Ptt.Output.{Rewritten, rewrite_header-Rewritten}
use oxlens_sfu_server.Ptt.{
  PttRewriter, RewriteState, ok, switch_gap, pending_ts, begin_stream, virtual_seq, virtual_ts,
  rewrite_accepted, rewrite, switch_speaker, translate_rtp_ts, reverse_seq,
}

-- What holds of a packet `buf` that left as `out`, and of the state `t` behind it.
pub record Sent (r : PttRewriter) (t : RewriteState) (buf out : List ℕ) : Type 0 where
  pub range : InRange t
  pub last_seq_kept : t.last_virtual_seq ≡ read16 out 2
  pub last_ts_kept : t.last_virtual_ts ≡ read32 out 4
  pub seq_back : reverse_seq t (read16 out 2) ≡ read16 buf 2
  pub ssrc_sent : read32 out 8 ≡ r.virtual_ssrc

begun : PttRewriter → RewriteState → List ℕ → ℕ → RewriteState
begun r s buf now =
    if s.awaiting_first_packet then begin_stream r s (read16 buf 2) (read32 buf 4) now else s

begun-InRange :
    (r : PttRewriter) (s : RewriteState) (buf : List ℕ) (now : ℕ)
    → 12 ≤ length buf
    → AreBytes buf
    → InRange s
    → InRange (begun r s buf now)
unfolding begun
begun-InRange r s buf now long bytes v =
    ground (
      arith,
      begin_stream-InRange r s (read16 buf 2) (read32 buf 4) now,
      read_bounds buf long bytes,
    )

rewrite_accepted-Rewritten :
    (r : PttRewriter) (s : RewriteState) (buf : List ℕ) (now : ℕ)
    → 12 ≤ length buf
    → r.virtual_ssrc < u32_mod
    → let t = begun r s buf now in
      Rewritten buf
        (rewrite_accepted r s buf now).1
        r.virtual_ssrc
        (virtual_seq t (read16 buf 2))
        (virtual_ts t (read32 buf 4))
        (s.awaiting_first_packet && not r.require_keyframe)
unfolding rewrite_accepted begun
rewrite_accepted-Rewritten r s buf now long hr =
    rewrite_header-Rewritten r _ _ _ buf long hr (omega arith) (omega arith)

unmap16 :
    (q o v : ℕ)
    → q < u16_mod
    → o < u16_mod
    → v < u16_mod
    → add16 (sub16 (add16 (sub16 q o) v) v) o ≡ q
unmap16 q o v hq ho hv = omega arith

rewrite_accepted-Sent :
    (r : PttRewriter) (s : RewriteState) (buf : List ℕ) (now : ℕ)
    → 12 ≤ length buf
    → AreBytes buf
    → r.virtual_ssrc < u32_mod
    → InRange s
    → Sent r (rewrite_accepted r s buf now).0 buf (rewrite_accepted r s buf now).1
unfolding rewrite_accepted begun reverse_seq
rewrite_accepted-Sent r s buf now long bytes hr v =
    let w = rewrite_accepted-Rewritten r s buf now long hr in
    let b = begun-InRange r s buf now long bytes v in
    let words = read_bounds buf long bytes in
    record {
      range = omega (arith, b, words);
      last_seq_kept = sym w.seq_written;
      last_ts_kept = sym w.ts_written;
      seq_back = rw w.seq_written (unmap16 _ _ _ words.0 b.origin_seq b.base_seq);
      ssrc_sent = w.ssrc_written;
    }

rewrite_accepted-translate :
    (r : PttRewriter) (s : RewriteState) (buf : List ℕ) (u : String) (now : ℕ)
    → 12 ≤ length buf
    → r.virtual_ssrc < u32_mod
    → s.speaker ≡ some u
    → translate_rtp_ts (rewrite_accepted r s buf now).0 (read32 buf 4)
      ≡ some (read32 (rewrite_accepted r s buf now).1 4)
unfolding rewrite_accepted begun translate_rtp_ts begin_stream
rewrite_accepted-translate r s buf u now long hr mine =
    let w = rewrite_accepted-Rewritten r s buf now long hr in rw w.ts_written (ground arith)

-- With numbers in the range of their words, every packet that is forwarded carries the virtual
-- SSRC; the NACK mapping takes its new sequence number back to the original one, the translation of
-- timestamps takes its old timestamp to the new one, and the state remembers what was sent last.
pub rewrite-Sent :
    (r : PttRewriter) (s : RewriteState) (buf : List ℕ) (u : String) (key : Bool) (now : ℕ)
    → AreBytes buf
    → r.virtual_ssrc < u32_mod
    → InRange s
    → (rewrite r s buf u key now).2 ≡ ok
    → let (t, out, _) = rewrite r s buf u key now in
      Sent r t buf out × (translate_rtp_ts t (read32 buf 4) ≡ some (read32 out 4))
rewrite-Sent r s buf u key now bytes hr v sent =
    let (long, mine, free) = (rewrite-ok_iff r s buf u key now).0 sent in
    rw (rewrite-passes r s buf u key now long mine free) (
      rewrite_accepted-Sent r (record s { pending_keyframe = false }) buf now long bytes hr
          (omega arith),
      rewrite_accepted-translate r (record s { pending_keyframe = false }) buf u now long hr mine,
    )

switch_speaker-speaker :
    (r : PttRewriter) (s : RewriteState) (u : String) (now : ℕ)
    → (switch_speaker r s u now).speaker ≡ some u
unfolding switch_speaker
switch_speaker-speaker r s u now = refl

switch_speaker-free :
    (r : PttRewriter) (s : RewriteState) (u : String) (key : Bool) (now : ℕ)
    → (r.require_keyframe ≡ false) ⊎ (key ≡ true)
    → ((switch_speaker r s u now).pending_keyframe ≡ false) ⊎ (key ≡ true)
unfolding switch_speaker
switch_speaker-free r s u key now free = free

-- The state of the switch once its first packet has passed the checks.
switched : PttRewriter → RewriteState → String → ℕ → RewriteState
switched r s u then' = record (switch_speaker r s u then') { pending_keyframe = false }

first-virtual_seq :
    (r : PttRewriter) (s : RewriteState) (buf : List ℕ) (u : String) (then' now : ℕ)
    → read16 buf 2 < u16_mod
    → s.last_virtual_seq < u16_mod
    → virtual_seq (begun r (switched r s u then') buf now) (read16 buf 2)
      ≡ add16 s.last_virtual_seq 1
unfolding begun begin_stream switched switch_speaker
first-virtual_seq r s buf u then' now hq hs = ground arith

first-virtual_ts :
    (r : PttRewriter) (s : RewriteState) (buf : List ℕ) (u : String) (then' now : ℕ)
    → read32 buf 4 < u32_mod
    → virtual_ts (begun r (switched r s u then') buf now) (read32 buf 4)
      ≡ add32
          (add32 s.last_virtual_ts (switch_gap r s then'))
          (if r.require_keyframe then pending_ts (switch_speaker r s u then') now else 0)
unfolding begun begin_stream switched switch_speaker pending_ts
first-virtual_ts r s buf u then' now ht = ground arith

-- With numbers in the range of their words, the first packet of a new speaker, with a whole header
-- and for video a keyframe, is forwarded and follows the last one sent: the next sequence number,
-- whatever the speaker's own number is, and the last timestamp moved on by the gap of the switch
-- and, for video, by the time waited since. All behind the header is untouched.
pub rewrite-switch_speaker :
    (r : PttRewriter) (s : RewriteState) (buf : List ℕ) (u : String) (key : Bool) (then' now : ℕ)
    → 12 ≤ length buf
    → AreBytes buf
    → r.virtual_ssrc < u32_mod
    → InRange s
    → (r.require_keyframe ≡ false) ⊎ (key ≡ true)
    → let t = switch_speaker r s u then' in
      let (_, out, result) = rewrite r t buf u key now in
      (result ≡ ok)
      × Rewritten buf out r.virtual_ssrc
          (add16 s.last_virtual_seq 1)
          (add32
            (add32 s.last_virtual_ts (switch_gap r s then'))
            (if r.require_keyframe then pending_ts t now else 0))
          (not r.require_keyframe)
unfolding switched rewrite_accepted switch_speaker
rewrite-switch_speaker r s buf u key then' now long bytes hr v free =
    let words = read_bounds buf long bytes in
    let passed =
      rewrite-passes r (switch_speaker r s u then') buf u key now long
        (switch_speaker-speaker r s u then') (switch_speaker-free r s u key then' free) in
    let w = rewrite_accepted-Rewritten r (switched r s u then') buf now long hr in
    rw passed (
      refl,
      rw
          (
            first-virtual_seq r s buf u then' now words.0 v.last_seq,
            first-virtual_ts r s buf u then' now words.1,
          )
          at w,
    )
