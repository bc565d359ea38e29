-- ===== src/Ptt/Gate.antt =====
-- src/room/ptt_rewriter.rs: which packets `rewrite` lets through, and the word sizes of the state.
use oxlens_sfu_server.Prelude.{
  ℕ, ◌≤◌, ◌<◌, String, ◌≡◌, refl, ◌≢◌, ◌↔◌, ◌⊎◌, Bool, true, false, Option, none, some, List, arith,
  length, same_iff, u16_mod, u32_mod,
}
use oxlens_sfu_server.Ptt.{
  PttRewriter, RewriteState, ok, is_speaker, begin_stream, rewrite_accepted, rewrite, clear_speaker,
}

is_speaker_iff :
    (s : RewriteState) (u : String) (o : Option String)
    → s.speaker ≡ o
    → (is_speaker s u ≡ true) ↔ (s.speaker ≡ some u)
is_speaker_iff s u none e = (λ h. ground arith, λ h. ground arith)
is_speaker_iff s u (some v) e =
    (λ h. ground (arith, same_iff v u), λ h. ground (arith, same_iff v u))

speaker-is_speaker : (s : RewriteState) (u : String) → s.speaker ≡ some u → is_speaker s u ≡ true
speaker-is_speaker s u e = (is_speaker_iff s u (some u) e).1 e

-- A packet is forwarded exactly if it has a whole fixed header, comes from the speaker, and no
-- keyframe is awaited or it is one.
pub rewrite-ok_iff :
    (r : PttRewriter) (s : RewriteState) (buf : List ℕ) (sender : String) (key : Bool) (now : ℕ)
    → ((rewrite r s buf sender key now).2 ≡ ok) ↔ (
        (12 ≤ length buf)
        × (s.speaker ≡ some sender)
        × ((s.pending_keyframe ≡ false) ⊎ (key ≡ true)))
unfolding rewrite rewrite_accepted
rewrite-ok_iff r s buf sender key now = (
  λ h. (ground arith, (is_speaker_iff s sender s.speaker refl).0 (ground arith), ground arith),
  λ (long, mine, free). ground (arith, speaker-is_speaker s sender mine),
)

-- A packet that is not forwarded changes neither the state nor itself.
rewrite-dropped :
    (r : PttRewriter) (s : RewriteState) (buf : List ℕ) (sender : String) (key : Bool) (now : ℕ)
    → (rewrite r s buf sender key now).2 ≢ ok
    → rewrite r s buf sender key now ≡ (s, buf, (rewrite r s buf sender key now).2)
unfolding rewrite rewrite_accepted
rewrite-dropped r s buf sender key now h = ground arith

-- A packet that passes the checks.
pub rewrite-passes :
    (r : PttRewriter) (s : RewriteState) (buf : List ℕ) (sender : String) (key : Bool) (now : ℕ)
    → 12 ≤ length buf
    → s.speaker ≡ some sender
    → (s.pending_keyframe ≡ false) ⊎ (key ≡ true)
    → rewrite r s buf sender key now
      ≡ rewrite_accepted r (record s { pending_keyframe = false }) buf now
unfolding rewrite
rewrite-passes r s buf sender key now long mine free =
    ground (arith, speaker-is_speaker s sender mine)

-- The numbers of the state fit their words.
pub record InRange (s : RewriteState) : Type 0 where
  pub origin_seq : s.origin_base_seq < u16_mod
  pub origin_ts : s.origin_base_ts < u32_mod
  pub base_seq : s.virtual_base_seq < u16_mod
  pub base_ts : s.virtual_base_ts < u32_mod
  pub last_seq : s.last_virtual_seq < u16_mod
  pub last_ts : s.last_virtual_ts < u32_mod

pub clear_speaker-InRange :
    (r : PttRewriter) (s : RewriteState) (now : ℕ) → InRange s → InRange (clear_speaker r s now).0
unfolding clear_speaker
clear_speaker-InRange r s now v = ground arith

pub begin_stream-InRange :
    (r : PttRewriter) (s : RewriteState) (seq ts now : ℕ)
    → seq < u16_mod
    → ts < u32_mod
    → InRange s
    → InRange (begin_stream r s seq ts now)
unfolding begin_stream
begin_stream-InRange r s seq ts now hs ht v = ground arith
