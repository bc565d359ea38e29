-- ===== src/Twcc/Chunks.antt =====
-- src/transport/udp/twcc.rs: what the status chunks of a feedback packet say.
use oxlens_sfu_server.Prelude.{
  ℕ, ◌/◌, ◌%◌, ◌<◌, ◌≡◌, refl, ap, List, [], ◌∷◌, ◌++◌, arith, length, take, map,
}
use oxlens_sfu_server.Twcc.Feedback.{
  PacketStatus, not_received, small_delta, large_delta, code, chunk, encode_status_chunks,
}

code-lt : (s : PacketStatus) → code s < 4
code-lt not_received = omega arith
code-lt small_delta = omega arith
code-lt large_delta = omega arith

-- The seven symbols of a status vector chunk as its receiver reads them, and those of some chunks.
unfoldable pub symbols : ℕ → List ℕ
symbols c =
    c / 4096 % 4 ∷ c / 1024 % 4 ∷ c / 256 % 4 ∷ c / 64 % 4 ∷ c / 16 % 4 ∷ c / 4 % 4 ∷ c % 4 ∷ []

unfoldable pub decode_chunks : List ℕ → List ℕ
decode_chunks [] = []
decode_chunks (c ∷ cs) = symbols c ++ decode_chunks cs

symbols-chunk :
    (a b c d e f g : PacketStatus)
    → symbols (chunk a b c d e f g)
      ≡ code a ∷ code b ∷ code c ∷ code d ∷ code e ∷ code f ∷ code g ∷ []
unfolding symbols
symbols-chunk a b c d e f g =
    ground (arith, code-lt a, code-lt b, code-lt c, code-lt d, code-lt e, code-lt f, code-lt g)

-- The chunks say of each packet what its status is: the first symbols are the statuses in order.
pub decode-encode_status_chunks :
    (ss : List PacketStatus)
    → take (length ss) (decode_chunks (encode_status_chunks ss)) ≡ map code ss
unfolding decode_chunks encode_status_chunks
decode-encode_status_chunks [] = refl
decode-encode_status_chunks (a ∷ []) =
    rw
      (symbols-chunk a not_received not_received not_received not_received not_received
        not_received)
      refl
decode-encode_status_chunks (a ∷ b ∷ []) =
    rw (symbols-chunk a b not_received not_received not_received not_received not_received) refl
decode-encode_status_chunks (a ∷ b ∷ c ∷ []) =
    rw (symbols-chunk a b c not_received not_received not_received not_received) refl
decode-encode_status_chunks (a ∷ b ∷ c ∷ d ∷ []) =
    rw (symbols-chunk a b c d not_received not_received not_received) refl
decode-encode_status_chunks (a ∷ b ∷ c ∷ d ∷ e ∷ []) =
    rw (symbols-chunk a b c d e not_received not_received) refl
decode-encode_status_chunks (a ∷ b ∷ c ∷ d ∷ e ∷ f ∷ []) =
    rw (symbols-chunk a b c d e f not_received) refl
decode-encode_status_chunks (a ∷ b ∷ c ∷ d ∷ e ∷ f ∷ g ∷ rest) = rw (symbols-chunk a b c d e f g) (
    ap (λ t. code a ∷ code b ∷ code c ∷ code d ∷ code e ∷ code f ∷ code g ∷ t)
      (decode-encode_status_chunks rest))
