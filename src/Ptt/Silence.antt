-- ===== src/Ptt/Silence.antt =====
-- src/room/ptt_rewriter.rs: the silence flush of `clear_speaker`, and the timestamps of the audio
-- stream across it.
use oxlens_sfu_server.Prelude.{
  ℕ, ◌≤◌, ◌<◌, max, String, ◌≡◌, refl, ◌∙◌, ◌≢◌, ◌⊎◌, inl, Bool, true, false, none, some, List, [],
  ◌∷◌, arith, length, drop, add16, add32, sat_mul32, read16, read32, u32_mod, AreBytes,
}
use oxlens_sfu_server.Ptt.Gate.{InRange, clear_speaker-InRange}
use oxlens_sfu_server.Ptt.Output.{Rewritten}
use oxlens_sfu_server.Ptt.Continuity.{rewrite-switch_speaker}
use oxlens_sfu_server.Ptt.{
  PttRewriter, RewriteState, ok, new_audio, elapsed_ms, switch_gap, silence_frame, silence_frames,
  clear_speaker, rewrite, switch_speaker,
}

-- Each frame is 15 bytes of Opus silence under the virtual SSRC, and follows the one before by one
-- sequence number and 960 ticks, starting from `seq` and `ts`.
abbrev pub IsFlush : ℕ → (seq ts : ℕ) → List (List ℕ) → Type 0
IsFlush ssrc seq ts [] = Unit {0}
IsFlush ssrc seq ts (f ∷ fs) =
    (length f ≡ 15)
    × (read16 f 2 ≡ add16 seq 1)
    × (read32 f 4 ≡ add32 ts 960)
    × (read32 f 8 ≡ ssrc)
    × (drop 12 f ≡ 0xf8 ∷ 0xff ∷ 0xfe ∷ [])
    × IsFlush ssrc (add16 seq 1) (add32 ts 960) fs

-- The state in which audio has been sent: `clear_speaker` flushes.
abbrev pub HasSent : RewriteState → Type 0
HasSent s = (s.last_virtual_seq ≢ 0) ⊎ (s.last_virtual_ts ≢ 0)

-- When the speaker of an audio stream that has carried a packet is cleared, three frames of silence
-- continue the stream, and the state stands at the last of them with no speaker.
clear_speaker-IsFlush :
    (r : PttRewriter) (s : RewriteState) (now : ℕ)
    → r.require_keyframe ≡ false
    → r.virtual_ssrc < u32_mod
    → InRange s
    → HasSent s
    → let t = (clear_speaker r s now).0 in
      (frames : List (List ℕ)) × ((clear_speaker r s now).1 ≡ some frames)
      × (length frames ≡ 3)
      × IsFlush r.virtual_ssrc s.last_virtual_seq s.last_virtual_ts frames
      × (t.speaker ≡ none)
      × (t.last_virtual_seq ≡ add16 s.last_virtual_seq 3)
      × (t.last_virtual_ts ≡ add32 s.last_virtual_ts 2880)
unfolding clear_speaker silence_frames silence_frame
clear_speaker-IsFlush r s now audio hr v sent = (
  silence_frames r s 3 0,
  ground arith,
  refl,
  (
    refl,
    omega arith,
    omega arith,
    omega arith,
    refl,
    (
      refl,
      omega arith,
      omega arith,
      omega arith,
      refl,
      (refl, omega arith, omega arith, omega arith, refl, tt),
    ),
  ),
  ground arith,
  ground arith,
  ground arith,
)

-- The gap of a switch after a flush.
clear-switch_gap :
    (ssrc : ℕ) (s : RewriteState) (cleared now : ℕ)
    → InRange s
    → HasSent s
    → let t = (clear_speaker (new_audio ssrc) s cleared).0 in
      (t.last_virtual_seq ≡ add16 s.last_virtual_seq 3)
      × (add32 t.last_virtual_ts (switch_gap (new_audio ssrc) t now)
          ≡ add32 s.last_virtual_ts (max (sat_mul32 (elapsed_ms now cleared) 48) 2880))
unfolding clear_speaker switch_gap
clear-switch_gap ssrc s cleared now v sent = (ground arith, ground arith)

-- With numbers in the range of their words, and an audio stream that has carried a packet: over a
-- release and the next grant the stream has no seam. The release gives three frames of silence,
-- under the virtual SSRC, which carry the next three sequence numbers and are 960 ticks apart;
-- behind them the next speaker's first packet has the sequence number after theirs, and its
-- timestamp has moved on since the last speech by 48 ticks for each idle millisecond, and by no
-- less than the flush.
pub rewrite-clear_speaker :
    (ssrc : ℕ) (s : RewriteState) (buf : List ℕ) (u : String) (key : Bool) (cleared granted now : ℕ)
    → 12 ≤ length buf
    → AreBytes buf
    → ssrc < u32_mod
    → InRange s
    → HasSent s
    → let r = new_audio ssrc in
      let t = (clear_speaker r s cleared).0 in
      let (_, out, result) = rewrite r (switch_speaker r t u granted) buf u key now in
      (frames : List (List ℕ)) × ((clear_speaker r s cleared).1 ≡ some frames)
      × (length frames ≡ 3)
      × IsFlush ssrc s.last_virtual_seq s.last_virtual_ts frames
      × (result ≡ ok)
      × Rewritten buf out ssrc
          (add16 s.last_virtual_seq 4)
          (add32 s.last_virtual_ts (max (sat_mul32 (elapsed_ms granted cleared) 48) 2880))
          true
rewrite-clear_speaker ssrc s buf u key cleared granted now long bytes hr v sent =
    let r = new_audio ssrc in
    let t = (clear_speaker r s cleared).0 in
    let gap = clear-switch_gap ssrc s cleared granted v sent in
    let seq : add16 t.last_virtual_seq 1 ≡ add16 s.last_virtual_seq 4 = omega arith in
    let ts : add32 (add32 t.last_virtual_ts (switch_gap r t granted)) 0
        ≡ add32 s.last_virtual_ts (max (sat_mul32 (elapsed_ms granted cleared) 48) 2880) =
      omega arith in
    let first =
      rewrite-switch_speaker r t buf u key granted now long bytes hr
        (clear_speaker-InRange r s cleared v) (inl refl) in
    let flush = clear_speaker-IsFlush r s cleared refl hr v sent in
    (flush.0, flush.1, flush.2, flush.3, first.0, rw (seq, ts) at first.1)

-- The defect: a preemption switches speakers with no `clear_speaker` in between, and the 2880 ticks
-- of a flush that did not happen are taken off a gap of 960. The first audio packet of the new
-- speaker has the next sequence number and the very timestamp of the last packet before it.
pub preempt_repeats_timestamp :
    (ssrc : ℕ) (s : RewriteState) (buf : List ℕ) (u : String) (key : Bool) (granted now : ℕ)
    → 12 ≤ length buf
    → AreBytes buf
    → ssrc < u32_mod
    → InRange s
    → s.cleared_at ≡ none
    → let r = new_audio ssrc in
      let (_, out, result) = rewrite r (switch_speaker r s u granted) buf u key now in
      (result ≡ ok)
      × (read16 out 2 ≡ add16 s.last_virtual_seq 1)
      × (read32 out 4 ≡ s.last_virtual_ts)
unfolding switch_gap
preempt_repeats_timestamp ssrc s buf u key granted now long bytes hr v running =
    let r = new_audio ssrc in
    let first = rewrite-switch_speaker r s buf u key granted now long bytes hr v (inl refl) in
    let none_left : switch_gap r s granted ≡ 0 = ground arith in
    (first.0, first.1.seq_written, first.1.ts_written ∙ omega arith)
