-- ===== src/Participant/Tracks.antt =====
-- src/room/participant.rs: the tracks of a participant over any history of changes.
use oxlens_sfu_server.Prelude.{
  ℕ, ◌+◌, ◌<◌, String, ◌≡◌, refl, ◌∙◌, inl, inr, Bool, Bool-cases, false, ◌||◌, Option, none, some,
  List, [], ◌∷◌, ◌++◌, ◌==◌, arith, All, All-append, u32_mod, add32,
}
use oxlens_sfu_server.Participant.TrackList.{
  TrackKind, audio, video, Track, has_ssrc, find_ssrc, without_ssrc, mute_ssrc,
}
use oxlens_sfu_server.Participant.{
  Participant, new, alloc_rtx_ssrc, push_kind, add_track_full, remove_track, set_track_muted,
}

-- What the handlers do to the tracks of a participant.
pub data Change : Type 0 where
  adds : Track → Change
  removes : (ssrc : ℕ) → Change
  mutes : (ssrc : ℕ) (muted : Bool) → Change

-- No SSRC twice.
abbrev pub Distinct : List Track → Type 0
Distinct [] = Unit {0}
Distinct (t ∷ ts) = (has_ssrc t.ssrc ts ≡ false) × Distinct ts

-- A video track, and no other, has an RTX stream.
abbrev pub RtxOf : TrackKind → Option ℕ → Type 0
RtxOf audio rtx_ssrc = rtx_ssrc ≡ none
RtxOf video rtx_ssrc = (rtx : ℕ) × (rtx_ssrc ≡ some rtx)

abbrev pub HasRtx : Track → Type 0
HasRtx t = RtxOf t.kind t.rtx_ssrc

pub record IsValid (ts : List Track) : Type 0 where
  pub distinct : Distinct ts
  pub rtx : All HasRtx ts

has_ssrc-append :
    (ssrc : ℕ) (ts : List Track) (t : Track)
    → has_ssrc ssrc (ts ++ (t ∷ [])) ≡ (has_ssrc ssrc ts || t.ssrc == ssrc)
unfolding has_ssrc
has_ssrc-append ssrc [] t = ground arith
has_ssrc-append ssrc (x ∷ ts) t = ground (arith, has_ssrc-append ssrc ts t)

append-Distinct :
    (ts : List Track) (t : Track)
    → Distinct ts
    → has_ssrc t.ssrc ts ≡ false
    → Distinct (ts ++ (t ∷ []))
unfolding has_ssrc
append-Distinct [] t d fresh = (refl, tt)
append-Distinct (x ∷ ts) t d fresh =
    ground (arith, has_ssrc-append x.ssrc ts t, append-Distinct ts t d.1)

has_ssrc-without :
    (q ssrc : ℕ) (ts : List Track)
    → has_ssrc q ts ≡ false
    → has_ssrc q (without_ssrc ssrc ts) ≡ false
unfolding has_ssrc without_ssrc
has_ssrc-without q ssrc [] h = refl
has_ssrc-without q ssrc (t ∷ ts) h = ground (arith, has_ssrc-without q ssrc ts)

without-IsValid :
    (ssrc : ℕ) (ts : List Track) → Distinct ts → All HasRtx ts → IsValid (without_ssrc ssrc ts)
unfolding without_ssrc
without-IsValid ssrc [] d r = record { distinct = tt; rtx = tt }
without-IsValid ssrc (t ∷ ts) d r = elim (Bool-cases (t.ssrc == ssrc)) [
  | inl here ↦ rw here (record { distinct = d.1; rtx = r.1 })
  | inr later ↦
      let v = without-IsValid ssrc ts d.1 r.1 in
      rw later (record {
        distinct = (has_ssrc-without t.ssrc ssrc ts d.0, v.distinct);
        rtx = (r.0, v.rtx);
      })
]

has_ssrc-mute :
    (q ssrc : ℕ) (muted : Bool) (ts : List Track)
    → has_ssrc q (mute_ssrc ssrc muted ts) ≡ has_ssrc q ts
unfolding has_ssrc mute_ssrc
has_ssrc-mute q ssrc muted [] = refl
has_ssrc-mute q ssrc muted (t ∷ ts) = ground (arith, has_ssrc-mute q ssrc muted ts)

mute-IsValid :
    (ssrc : ℕ) (muted : Bool) (ts : List Track)
    → Distinct ts
    → All HasRtx ts
    → IsValid (mute_ssrc ssrc muted ts)
unfolding mute_ssrc
mute-IsValid ssrc muted [] d r = record { distinct = tt; rtx = tt }
mute-IsValid ssrc muted (t ∷ ts) d r = elim (Bool-cases (t.ssrc == ssrc)) [
  | inl here ↦ rw here (record { distinct = d; rtx = r })
  | inr later ↦
      let v = mute-IsValid ssrc muted ts d.1 r.1 in
      rw later (record {
        distinct = (has_ssrc-mute t.ssrc ssrc muted ts ∙ d.0, v.distinct);
        rtx = (r.0, v.rtx);
      })
]

module _ {F : Type 0} where
  unfoldable pub change : Participant F → Change → Participant F
  change p (adds t) = add_track_full p t
  change p (removes ssrc) = (remove_track p ssrc).0
  change p (mutes ssrc muted) = (set_track_muted p ssrc muted).0

  unfoldable pub change_all : Participant F → List Change → Participant F
  change_all p [] = p
  change_all p (c ∷ cs) = change_all (change p c) cs

  push_kind-IsValid :
      (p : Participant F) (t : Track) (k : TrackKind)
      → t.kind ≡ k
      → has_ssrc t.ssrc p.tracks ≡ false
      → IsValid p.tracks
      → IsValid (push_kind p t k).tracks
  unfolding alloc_rtx_ssrc
  push_kind-IsValid p t audio e fresh v = record {
    distinct = append-Distinct p.tracks _ v.distinct fresh;
    rtx = All-append HasRtx p.tracks _ v.rtx (rw e refl, tt);
  }
  push_kind-IsValid p t video e fresh v = record {
    distinct = append-Distinct p.tracks _ v.distinct fresh;
    rtx = All-append HasRtx p.tracks _ v.rtx (rw e (_, refl), tt);
  }

  add_track_full-IsValid :
      (p : Participant F) (t : Track) → IsValid p.tracks → IsValid (add_track_full p t).tracks
  unfolding add_track_full
  add_track_full-IsValid p t v = elim (Bool-cases (has_ssrc t.ssrc p.tracks)) [
    | inl known ↦ rw known v
    | inr fresh ↦ rw fresh (push_kind-IsValid p t t.kind refl fresh v)
  ]

  remove_track-IsValid :
      (p : Participant F) (ssrc : ℕ) → IsValid p.tracks → IsValid (remove_track p ssrc).0.tracks
  unfolding remove_track
  remove_track-IsValid p ssrc v = ground (arith, without-IsValid ssrc p.tracks v.distinct v.rtx)

  set_track_muted-IsValid :
      (p : Participant F) (ssrc : ℕ) (muted : Bool)
      → IsValid p.tracks
      → IsValid (set_track_muted p ssrc muted).0.tracks
  unfolding set_track_muted
  set_track_muted-IsValid p ssrc muted v =
      ground (arith, mute-IsValid ssrc muted p.tracks v.distinct v.rtx)

  change_all-IsValid :
      (p : Participant F) (cs : List Change) → IsValid p.tracks → IsValid (change_all p cs).tracks
  unfolding change_all change
  change_all-IsValid p [] v = v
  change_all-IsValid p (adds t ∷ cs) v =
      change_all-IsValid (add_track_full p t) cs (add_track_full-IsValid p t v)
  change_all-IsValid p (removes ssrc ∷ cs) v =
      change_all-IsValid (remove_track p ssrc).0 cs (remove_track-IsValid p ssrc v)
  change_all-IsValid p (mutes ssrc muted ∷ cs) v =
      change_all-IsValid (set_track_muted p ssrc muted).0 cs
        (set_track_muted-IsValid p ssrc muted v)

-- After any changes of a new participant's tracks, no SSRC is there twice, and each video track has
-- an RTX stream and no audio track has one.
tracks-IsValid :
    (F : Type 0) (user_id room_id pub_ufrag pub_pwd sub_ufrag sub_pwd : String) (joined_at : ℕ)
    (cs : List Change)
    → IsValid
        (change_all {F = F}
          (new user_id room_id pub_ufrag pub_pwd sub_ufrag sub_pwd joined_at)
          cs).tracks
unfolding new
tracks-IsValid F user_id room_id pub_ufrag pub_pwd sub_ufrag sub_pwd joined_at cs =
    change_all-IsValid (new user_id room_id pub_ufrag pub_pwd sub_ufrag sub_pwd joined_at) cs
      (record { distinct = tt; rtx = tt })

differs : (a b : ℕ) → b + 1 ≡ a → (a == b) ≡ false
differs a b h = ground arith

collide : (m n c : ℕ) → m + 1 ≡ n → add32 (add32 m 1000) (add32 c 1) ≡ add32 (add32 n 1000) c
collide m n c h = omega arith

-- The RTX SSRC that a participant's track has, if it has one.
abbrev pub rtx_of : {F : Type 0} → Participant F → ℕ → Option ℕ
rtx_of p ssrc = elim (find_ssrc ssrc p.tracks) [ none ↦ none | some t ↦ t.rtx_ssrc ]

-- The defect: where two video tracks come one after the other and the second has the SSRC right
-- below the first one's, the counter makes up for the difference and both get the same RTX SSRC.
rtx_ssrc_collides :
    {F : Type 0} (p : Participant F) (t u : Track)
    → p.tracks ≡ []
    → t.kind ≡ video
    → u.kind ≡ video
    → u.ssrc + 1 ≡ t.ssrc
    → t.ssrc < u32_mod
    → p.rtx_ssrc_counter < u32_mod
    → let q = add_track_full (add_track_full p t) u in
      (rtx : ℕ) × ((rtx_of q t.ssrc ≡ some rtx) × (rtx_of q u.ssrc ≡ some rtx))
unfolding add_track_full alloc_rtx_ssrc has_ssrc find_ssrc
rtx_ssrc_collides p t u empty kt ku next ht hc =
    let apart : (t.ssrc == u.ssrc) ≡ false = differs t.ssrc u.ssrc next in
    (
      add32 (add32 t.ssrc 1000) p.rtx_ssrc_counter,
      (
        rw (empty, kt, ku, apart) (ground arith),
        rw (empty, kt, ku, apart) (ground (arith, collide u.ssrc t.ssrc p.rtx_ssrc_counter next)),
      ),
    )
