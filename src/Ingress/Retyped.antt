-- ===== src/Ingress/Retyped.antt =====
-- src/transport/udp/ingress.rs (`handle_srtp`): what the server's payload type changes of a packet.
use oxlens_sfu_server.Prelude.{
  ℕ, zero, suc, ◌+◌, ◌*◌, ◌/◌, ◌%◌, ◌≤◌, ◌<◌, ◌≡◌, refl, ◌∙◌, sym, ap, ◌≢◌, ◌⊎◌, inl, inr, false,
  not, ◌&&◌, Bool-cases, Option, none, some, List, [], ◌∷◌, arith, All, ◌==◌, length, set, get_or,
  length-set, byte_at,
}
use oxlens_sfu_server.Rtcp.Header.{RtpHeader, parse_rtp_header, rtx_pt_for}
use oxlens_sfu_server.Participant.TrackList.{
  Track, VideoCodec, vp8, h264, vp9, standard_pt, standard_rtx_pt,
}
use oxlens_sfu_server.Ingress.Payload.{find_pt, normalized_by, with_pt, normalize_pt}

-- Some track is such.
abbrev pub Some : (Track → Type 0) → List Track → Type 0
Some P [] = ⊥
Some P (t ∷ ts) = P t ⊎ Some P ts

-- The server's payload type for the client's `pt`: that of the codec of a track which the client
-- sends under `pt`; or the codec's for retransmissions, where the track is retransmitted under it;
-- or `pt` itself, where no track is.
abbrev pub ServerPt : List Track → (pt standard : ℕ) → Type 0
ServerPt tracks pt standard =
    (pt ≢ 0)
      × (Some (λ t. (t.actual_pt ≡ pt) × (standard ≡ standard_pt t.video_codec)) tracks
          ⊎ Some (λ t. (t.actual_rtx_pt ≡ pt) × (standard ≡ standard_rtx_pt t.video_codec)) tracks)
    ⊎ ((standard ≡ pt) × All (λ t. (pt ≡ 0) ⊎ ((t.actual_pt ≢ pt) × (t.actual_rtx_pt ≢ pt))) tracks)

-- The packet as it came, but for the payload type: the low seven bits of the second byte.
pub record Retyped (tracks : List Track) (plaintext packet : List ℕ) : Type 0 where
  pub same_length : length packet ≡ length plaintext
  pub kept : (i : ℕ) → i ≢ 1 → byte_at packet i ≡ byte_at plaintext i
  pub marker : byte_at packet 1 / 128 ≡ byte_at plaintext 1 / 128
  pub typed : ServerPt tracks (byte_at plaintext 1 % 128) (byte_at packet 1 % 128)

get_or-set : (xs : List ℕ) (i j v : ℕ) → j ≢ i → get_or (set xs i v) j 0 ≡ get_or xs j 0
get_or-set [] i j v h = refl
get_or-set (x ∷ xs) zero zero v h = absurd (h refl)
get_or-set (x ∷ xs) zero (suc j) v h = refl
get_or-set (x ∷ xs) (suc i) zero v h = refl
get_or-set (x ∷ xs) (suc i) (suc j) v h = get_or-set xs i j v (λ e. h (ap suc e))

get_or-set_there : (xs : List ℕ) (i v : ℕ) → i < length xs → get_or (set xs i v) i 0 ≡ v
get_or-set_there [] i v h = absurd (omega arith)
get_or-set_there (x ∷ xs) zero v h = refl
get_or-set_there (x ∷ xs) (suc i) v h = get_or-set_there xs i v (omega arith)

standard_pt-small : (c : VideoCodec) → standard_pt c < 128
standard_pt-small vp8 = omega arith
standard_pt-small h264 = omega arith
standard_pt-small vp9 = omega arith

standard_rtx_pt-small : (c : VideoCodec) → standard_rtx_pt c < 128
unfolding rtx_pt_for
standard_rtx_pt-small c = ground arith

-- What a search finds.
abbrev Found : (Track → ℕ) → (pt : ℕ) → List Track → Option Track → Type 0
Found pt_of pt tracks none = All (λ t. (pt ≡ 0) ⊎ (pt_of t ≢ pt)) tracks
Found pt_of pt tracks (some t) = (pt ≢ 0) × Some (λ x. (pt_of x ≡ pt) × (x ≡ t)) tracks

Found-later :
    (pt_of : Track → ℕ) (pt : ℕ) (t : Track) (ts : List Track) (o : Option Track)
    → (not (pt_of t == 0) && pt_of t == pt) ≡ false
    → Found pt_of pt ts o
    → Found pt_of pt (t ∷ ts) o
Found-later pt_of pt t ts none other v = (ground (arith, other), v)
Found-later pt_of pt t ts (some x) other v = (v.0, inr v.1)

find_pt-Found :
    (pt_of : Track → ℕ) (pt : ℕ) (tracks : List Track)
    → Found pt_of pt tracks (find_pt pt_of pt tracks)
unfolding find_pt
find_pt-Found pt_of pt [] = tt
find_pt-Found pt_of pt (t ∷ ts) =
    let rest = find_pt-Found pt_of pt ts in
    elim (Bool-cases (not (pt_of t == 0) && pt_of t == pt)) [
      | inl this ↦ rw this ((λ e. ground (arith, this, e)), inl (ground (arith, this), refl))
      | inr other ↦ rw other (Found-later pt_of pt t ts (find_pt pt_of pt ts) other rest)
    ]

Some-imply :
    {P Q : Track → Type 0} (ts : List Track) → ((t : Track) → P t → Q t) → Some P ts → Some Q ts
Some-imply [] f s = absurd s
Some-imply (t ∷ ts) f (inl p) = inl (f t p)
Some-imply (t ∷ ts) f (inr s) = inr (Some-imply ts f s)

no_track :
    (pt client : ℕ) (ts : List Track)
    → pt ≡ client
    → Found (λ t. t.actual_pt) pt ts none
    → Found (λ t. t.actual_rtx_pt) pt ts none
    → All (λ t. (client ≡ 0) ⊎ ((t.actual_pt ≢ client) × (t.actual_rtx_pt ≢ client))) ts
no_track pt client [] is u v = tt
no_track pt client (t ∷ ts) is u v =
    (ground (arith, is, u.0, v.0), no_track pt client ts is u.1 v.1)

-- The second byte with another payload type.
with_pt-bytes :
    (plaintext : List ℕ) (hdr : RtpHeader) (pt : ℕ)
    → 2 ≤ length plaintext
    → pt < 128
    → let packet = (with_pt plaintext hdr pt).0 in
      (length packet ≡ length plaintext)
      × ((i : ℕ) → i ≢ 1 → byte_at packet i ≡ byte_at plaintext i)
      × (byte_at packet 1 / 128 ≡ byte_at plaintext 1 / 128)
      × (byte_at packet 1 % 128 ≡ pt)
with_pt-bytes plaintext hdr pt long small =
    let v = byte_at plaintext 1 / 128 * 128 + pt in
    let there = get_or-set_there plaintext 1 v long in
    (
      length-set plaintext 1 v,
      (λ i ne. get_or-set plaintext 1 i v ne),
      omega (arith, there, small),
      omega (arith, there, small),
    )

normalized_by-Retyped :
    (tracks : List Track) (plaintext : List ℕ) (hdr : RtpHeader) (by_pt by_rtx : Option Track)
    → 2 ≤ length plaintext
    → hdr.pt ≡ byte_at plaintext 1 % 128
    → Found (λ t. t.actual_pt) hdr.pt tracks by_pt
    → Found (λ t. t.actual_rtx_pt) hdr.pt tracks by_rtx
    → let out = normalized_by by_pt by_rtx plaintext hdr in
      Retyped tracks plaintext out.0 × (out.1.pt ≡ byte_at out.0 1 % 128)
normalized_by-Retyped tracks plaintext hdr (some t) by_rtx long is (ne, found) v =
    let b =
      with_pt-bytes plaintext hdr (standard_pt t.video_codec) long
        (standard_pt-small t.video_codec) in
    (
      record {
        same_length = b.0;
        kept = b.1;
        marker = b.2;
        typed = inl (
          (λ e. ne (is ∙ e)),
          inl (
              Some-imply tracks
                (λ x h. (h.0 ∙ is, b.3 ∙ ap (λ y. standard_pt y.video_codec) (sym h.1))) found),
        );
      },
      sym b.3,
    )
normalized_by-Retyped tracks plaintext hdr none (some t) long is u (ne, found) =
    let b =
      with_pt-bytes plaintext hdr (standard_rtx_pt t.video_codec) long
        (standard_rtx_pt-small t.video_codec) in
    (
      record {
        same_length = b.0;
        kept = b.1;
        marker = b.2;
        typed = inl (
          (λ e. ne (is ∙ e)),
          inr (
              Some-imply tracks
                (λ x h. (h.0 ∙ is, b.3 ∙ ap (λ y. standard_rtx_pt y.video_codec) (sym h.1))) found),
        );
      },
      sym b.3,
    )
normalized_by-Retyped tracks plaintext hdr none none long is u v = (
  record {
    same_length = refl;
    kept = λ i ne. refl;
    marker = refl;
    typed = inr (refl, no_track hdr.pt (byte_at plaintext 1 % 128) tracks is u v);
  },
  is,
)

pub normalize_pt-Retyped :
    (tracks : List Track) (plaintext : List ℕ)
    → 12 ≤ length plaintext
    → let out = normalize_pt tracks plaintext (parse_rtp_header plaintext) in
      Retyped tracks plaintext out.0 × (out.1.pt ≡ byte_at out.0 1 % 128)
unfolding normalize_pt parse_rtp_header
normalize_pt-Retyped tracks plaintext long =
    let hdr = parse_rtp_header plaintext in
    normalized_by-Retyped tracks plaintext hdr (find_pt (λ t. t.actual_pt) hdr.pt tracks)
      (find_pt (λ t. t.actual_rtx_pt) hdr.pt tracks) (omega (arith, long)) (ground arith)
      (find_pt-Found (λ t. t.actual_pt) hdr.pt tracks)
      (find_pt-Found (λ t. t.actual_rtx_pt) hdr.pt tracks)
