-- ===== src/Ptt.antt =====
-- src/room/ptt_rewriter.rs: the rewriter that turns the RTP of changing speakers into one
-- continuous stream. The constant fields are `PttRewriter`, what the mutex guards is
-- `RewriteState`, and each method is a function of both. An `Instant` is a number of nanoseconds,
-- and the clock that `Instant::now` and `elapsed` read is an argument.
pub mod Gate
pub mod Output
pub mod Continuity
pub mod Silence
mod Tests
use oxlens_sfu_server.Prelude.{
  ℕ, zero, suc, ◌+◌, ◌-◌, ◌*◌, ◌/◌, ◌%◌, max, String, Bool, true, false, not, ◌&&◌, Option, none,
  some, List, [], ◌∷◌, ◌++◌, ltb, ◌==◌, if◌then◌else◌, length, same, set, add16, sub16, add32,
  sub32, sat_mul32, be16, be32, byte_at, read16, read32, write16, write32, u32_mod,
}

pub data RewriteResult : Type 0 where
  ok pending_keyframe skip : RewriteResult

pub record PttRewriter : Type 0 where
  pub virtual_ssrc : ℕ
  pub ts_guard_gap : ℕ
  pub require_keyframe : Bool

pub record RewriteState : Type 0 where
  pub speaker : Option String
  pub origin_base_seq : ℕ
  pub origin_base_ts : ℕ
  pub virtual_base_seq : ℕ
  pub virtual_base_ts : ℕ
  pub last_virtual_seq : ℕ
  pub last_virtual_ts : ℕ
  pub awaiting_first_packet : Bool
  pub pending_keyframe : Bool
  pub cleared_at : Option ℕ
  pub switched_at : Option ℕ

-- `TS_GUARD_GAP_AUDIO`, `TS_GUARD_GAP_VIDEO`, `OPUS_PT`, `SILENCE_FLUSH_COUNT`.
abbrev pub ts_guard_gap_audio : ℕ
ts_guard_gap_audio = 960

abbrev pub ts_guard_gap_video : ℕ
ts_guard_gap_video = 3000

abbrev pub opus_pt : ℕ
opus_pt = 111

abbrev pub silence_flush_count : ℕ
silence_flush_count = 3

-- The random virtual SSRC is an argument.
abbrev pub new_audio : ℕ → PttRewriter
new_audio ssrc = record {
  virtual_ssrc = ssrc;
  ts_guard_gap = ts_guard_gap_audio;
  require_keyframe = false;
}

abbrev pub new_video : ℕ → PttRewriter
new_video ssrc = record {
  virtual_ssrc = ssrc;
  ts_guard_gap = ts_guard_gap_video;
  require_keyframe = true;
}

abbrev pub new_state : RewriteState
new_state = record {
  speaker = none;
  origin_base_seq = 0;
  origin_base_ts = 0;
  virtual_base_seq = 0;
  virtual_base_ts = 0;
  last_virtual_seq = 0;
  last_virtual_ts = 0;
  awaiting_first_packet = false;
  pending_keyframe = false;
  cleared_at = none;
  switched_at = none;
}

-- `t.elapsed().as_millis() as u32`; `elapsed` is 0 for a time to come.
abbrev pub elapsed_ms : ℕ → ℕ → ℕ
elapsed_ms now t = (now - t) / 1000000 % u32_mod

-- The timestamp gap of an idle period, at `rate` ticks in a millisecond.
unfoldable pub dynamic_ts_gap : PttRewriter → RewriteState → ℕ → ℕ → ℕ
dynamic_ts_gap r s rate now = elim s.cleared_at [
  | none ↦ r.ts_guard_gap
  | some cleared ↦ max (sat_mul32 (elapsed_ms now cleared) rate) r.ts_guard_gap
]

abbrev pub silence_ts : ℕ
silence_ts = ts_guard_gap_audio * silence_flush_count

-- What `switch_speaker` adds to the last virtual timestamp.
unfoldable pub switch_gap : PttRewriter → RewriteState → ℕ → ℕ
unfolding dynamic_ts_gap
switch_gap r s now =
    if r.require_keyframe then dynamic_ts_gap r s 90 now else dynamic_ts_gap r s 48 now - silence_ts

unfoldable pub switch_speaker : PttRewriter → RewriteState → String → ℕ → RewriteState
switch_speaker r s u now = record s {
  virtual_base_ts = add32 s.last_virtual_ts (switch_gap r s now);
  virtual_base_seq = add16 s.last_virtual_seq 1;
  cleared_at = none;
  speaker = some u;
  awaiting_first_packet = true;
  pending_keyframe = r.require_keyframe;
  switched_at = some now;
}

-- One frame of the flush: RTP header of twelve bytes and the Opus silence payload.
unfoldable pub silence_frame : ℕ → ℕ → ℕ → List ℕ
silence_frame ssrc seq ts =
    0x80 ∷ opus_pt ∷ (be16 seq ++ (be32 ts ++ (be32 ssrc ++ (0xf8 ∷ 0xff ∷ 0xfe ∷ []))))

-- The loop of `clear_speaker`, with `n` frames left and `i` made.
unfoldable pub silence_frames : PttRewriter → RewriteState → ℕ → ℕ → List (List ℕ)
silence_frames r s zero i = []
silence_frames r s (suc n) i =
    silence_frame r.virtual_ssrc (add16 s.last_virtual_seq (1 + i))
      (add32 s.last_virtual_ts (ts_guard_gap_audio * (1 + i)))
    ∷ silence_frames r s n (i + 1)

unfoldable pub clear_speaker :
    PttRewriter → RewriteState → ℕ → RewriteState × Option (List (List ℕ))
clear_speaker r s now =
    let cleared : RewriteState = record s {
      speaker = none;
      awaiting_first_packet = false;
      pending_keyframe = false;
      cleared_at = some now;
      switched_at = none;
    } in
    if r.require_keyframe
    then (cleared, none)
    else if s.last_virtual_seq == 0 && s.last_virtual_ts == 0
    then (cleared, none)
    else (
      record cleared {
        last_virtual_seq = add16 s.last_virtual_seq silence_flush_count;
        last_virtual_ts = add32 s.last_virtual_ts silence_ts;
      },
      some (silence_frames r s silence_flush_count 0),
    )

abbrev pub is_speaker : RewriteState → String → Bool
is_speaker s u = elim s.speaker [ none ↦ false | some v ↦ same v u ]

-- The video correction for the time between the switch and the first packet; 0 where the source
-- adds nothing.
unfoldable pub pending_ts : RewriteState → ℕ → ℕ
pending_ts s now = elim s.switched_at [
  | none ↦ 0
  | some switched ↦
      if ltb 50 (elapsed_ms now switched) then sat_mul32 (elapsed_ms now switched) 90 else 0
]

-- The `if is_first` block: the packet sets the origin of the new speaker's stream.
unfoldable pub begin_stream : PttRewriter → RewriteState → ℕ → ℕ → ℕ → RewriteState
unfolding pending_ts
begin_stream r s seq ts now =
    let s' : RewriteState = record s {
      origin_base_seq = seq;
      origin_base_ts = ts;
      awaiting_first_packet = false;
    } in
    if r.require_keyframe
    then record s' {
      virtual_base_ts = add32 s.virtual_base_ts (pending_ts s now);
      switched_at = none;
    }
    else s'

abbrev pub virtual_seq : RewriteState → ℕ → ℕ
virtual_seq s seq = add16 (sub16 seq s.origin_base_seq) s.virtual_base_seq

abbrev pub virtual_ts : RewriteState → ℕ → ℕ
virtual_ts s ts = add32 (sub32 ts s.origin_base_ts) s.virtual_base_ts

-- `plaintext[1] |= 0x80`
abbrev pub set_marker : List ℕ → List ℕ
set_marker buf = set buf 1 (byte_at buf 1 % 128 + 128)

-- The header writes, in the source's order.
unfoldable pub rewrite_header : PttRewriter → ℕ → ℕ → Bool → List ℕ → List ℕ
rewrite_header r seq ts mark buf =
    let out = write32 (write16 (write32 buf 8 r.virtual_ssrc) 2 seq) 4 ts in
    if mark then set_marker out else out

-- The part of `rewrite` behind the checks.
unfoldable pub rewrite_accepted :
    PttRewriter → RewriteState → List ℕ → ℕ → RewriteState × List ℕ × RewriteResult
rewrite_accepted r s buf now =
    let seq = read16 buf 2 in
    let ts = read32 buf 4 in
    let first = s.awaiting_first_packet in
    let s' = if first then begin_stream r s seq ts now else s in
    (
      record s' { last_virtual_seq = virtual_seq s' seq; last_virtual_ts = virtual_ts s' ts },
      rewrite_header r (virtual_seq s' seq) (virtual_ts s' ts) (first && not r.require_keyframe)
          buf,
      ok,
    )

unfoldable pub rewrite :
    PttRewriter → RewriteState → List ℕ → String → Bool → ℕ → RewriteState × List ℕ × RewriteResult
rewrite r s buf sender is_keyframe now =
    if ltb (length buf) 12
    then (s, buf, skip)
    else if not (is_speaker s sender)
    then (s, buf, skip)
    else if s.pending_keyframe && not is_keyframe
    then (s, buf, RewriteResult.pending_keyframe)
    else rewrite_accepted r (record s { pending_keyframe = false }) buf now

unfoldable pub translate_rtp_ts : RewriteState → ℕ → Option ℕ
translate_rtp_ts s ts = elim s.speaker [
  | none ↦ none
  | some u ↦ if s.awaiting_first_packet then none else some (virtual_ts s ts)
]

unfoldable pub reverse_seq : RewriteState → ℕ → ℕ
reverse_seq s v = add16 (sub16 v s.virtual_base_seq) s.origin_base_seq
