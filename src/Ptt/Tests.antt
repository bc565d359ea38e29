-- ===== src/Ptt/Tests.antt =====
-- Runs of src/room/ptt_rewriter.rs on small inputs, and the theorems about it at concrete inputs.
use oxlens_sfu_server.Prelude.{
  length, ℕ, ◌≡◌, refl, inl, inr, true, false, some, List, [], ◌∷◌, arith, add32, read16, read32,
  same,
}
use oxlens_sfu_server.Ptt.Gate.{InRange}
use oxlens_sfu_server.Ptt.Output.{Rewritten}
use oxlens_sfu_server.Ptt.Continuity.{Sent, rewrite-Sent, rewrite-switch_speaker}
use oxlens_sfu_server.Ptt.Silence.{IsFlush, rewrite-clear_speaker, preempt_repeats_timestamp}
use oxlens_sfu_server.Ptt.{
  RewriteState, ok, new_audio, new_video, new_state, switch_gap, pending_ts, clear_speaker,
  begin_stream, rewrite_header, rewrite_accepted, rewrite, switch_speaker, translate_rtp_ts,
}

-- An audio packet with sequence number 7 and timestamp 960.
abbrev packet : List ℕ
packet = 0x80 ∷ 111 ∷ 0 ∷ 7 ∷ 0 ∷ 0 ∷ 3 ∷ 0xc0 ∷ 0 ∷ 0 ∷ 0 ∷ 9 ∷ 0xaa ∷ 0xbb ∷ []

-- A stream that stands at the end of the sequence numbers.
abbrev speaking : RewriteState
speaking = record new_state {
  speaker = some "a";
  origin_base_seq = 5;
  virtual_base_seq = 65530;
  virtual_base_ts = 96000;
  last_virtual_seq = 65534;
  last_virtual_ts = 99840;
}

speaking-InRange : InRange speaking
speaking-InRange = omega arith

sent_seq : read16 (rewrite (new_audio 77) speaking packet "a" false 0).1 2 ≡ 65532
unfolding rewrite rewrite_accepted rewrite_header begin_stream same
sent_seq = refl

next_speaker_seq :
    read16
      (rewrite (new_audio 77) (switch_speaker (new_audio 77) speaking "b" 0) packet "b" false 0).1
      2
    ≡ 65535
unfolding rewrite rewrite_accepted rewrite_header begin_stream same switch_speaker switch_gap
next_speaker_seq = refl

rewrite-Sent_example :
    let (t, out, _) = rewrite (new_audio 77) speaking packet "a" false 0 in
    Sent (new_audio 77) t packet out × (translate_rtp_ts t (read32 packet 4) ≡ some (read32 out 4))
unfolding rewrite rewrite_accepted same
rewrite-Sent_example =
    rewrite-Sent (new_audio 77) speaking packet "a" false 0 (omega arith) (omega arith)
      speaking-InRange refl

rewrite-switch_speaker_example :
    let t = switch_speaker (new_video 77) speaking "b" 0 in
    let (_, out, result) = rewrite (new_video 77) t packet "b" true 0 in
    (result ≡ ok)
    × Rewritten packet out 77 65535
        (add32 (add32 99840 (switch_gap (new_video 77) speaking 0)) (pending_ts t 0))
        false
rewrite-switch_speaker_example =
    rewrite-switch_speaker (new_video 77) speaking packet "b" true 0 0 (omega arith) (omega arith)
      (omega arith) speaking-InRange (inr refl)

rewrite-clear_speaker_example :
    let t = (clear_speaker (new_audio 77) speaking 0).0 in
    let (_, out, result) =
      rewrite (new_audio 77) (switch_speaker (new_audio 77) t "b" 1000000000) packet "b" false 0 in
    (frames : List (List ℕ)) × ((clear_speaker (new_audio 77) speaking 0).1 ≡ some frames)
    × (length frames ≡ 3)
    × IsFlush 77 65534 99840 frames
    × (result ≡ ok)
    × Rewritten packet out 77 2 147840 true
rewrite-clear_speaker_example =
    rewrite-clear_speaker 77 speaking packet "b" false 0 1000000000 0 (omega arith) (omega arith)
      (omega arith) speaking-InRange (inl (omega arith))

preempt_repeats_timestamp_example :
    let (_, out, result) =
      rewrite (new_audio 77) (switch_speaker (new_audio 77) speaking "b" 0) packet "b" false 0 in
    (result ≡ ok) × (read16 out 2 ≡ 65535) × (read32 out 4 ≡ 99840)
preempt_repeats_timestamp_example =
    preempt_repeats_timestamp 77 speaking packet "b" false 0 0 (omega arith) (omega arith)
      (omega arith) speaking-InRange refl
