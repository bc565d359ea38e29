-- ===== src/Stun/Response.antt =====
-- src/transport/stun.rs: the binding response, as the parser and the verifier read it.
use oxlens_sfu_server.Prelude.{
  ℕ, zero, suc, ◌+◌, ◌-◌, ◌%◌, ◌<◌, ◌≤◌, ◌≡◌, refl, sym, ap, ◌∙◌, true, false, some, List, [], ◌∷◌,
  ◌++◌, append_assoc, append-nil, arith, ltb, ◌==◌, length, take, drop, length-append, length-take,
  some-injective, take-length-append, drop-length-append, read16, be16, be32, inl, inr, ◌⊎◌,
}
use oxlens_sfu_server.Rtcp.Mbcp.{padded}
use oxlens_sfu_server.Participant.{SocketAddr, v4, v6}
use oxlens_sfu_server.Stun.{
  magic_cookie, header_size, binding_response, attr_xor_mapped_address, attr_software,
  attr_message_integrity, attr_fingerprint, software, StunMessage, attributes_from, attr_bytes,
  parse, message, write_attr, set_length, response_header, encode_xor_mapped_address, be128,
  xor_bytes, same_bytes,
}
use oxlens_sfu_server.Stun.Attributes.{from_be16-be16, length-attr_bytes}

-- A response with its length field, its transaction and its attributes.
abbrev pub whole : ℕ → List ℕ → List ℕ → List ℕ
whole l tid xs = be16 binding_response ++ (be16 l ++ (be32 magic_cookie ++ (tid ++ xs)))

pub write_attr-whole :
    (l : ℕ) (tid xs : List ℕ) (t : ℕ) (v : List ℕ)
    → write_attr (whole l tid xs) t v ≡ whole l tid (xs ++ attr_bytes t v)
write_attr-whole l tid xs t v =
    ap (λ ys. be16 binding_response ++ (be16 l ++ (be32 magic_cookie ++ ys)))
      (append_assoc tid xs (attr_bytes t v))

pub length-whole :
    (l : ℕ) (tid xs : List ℕ) → length tid ≡ 12 → length (whole l tid xs) ≡ 20 + length xs
length-whole l tid xs h = omega (arith, length-append tid xs)

pub set_length-whole :
    (l : ℕ) (tid xs : List ℕ) (more : ℕ)
    → length tid ≡ 12
    → set_length (whole l tid xs) more ≡ whole (length xs + more) tid xs
set_length-whole l tid xs more h =
    let e : length (whole l tid xs) - header_size + more ≡ length xs + more =
      omega (arith, length-whole l tid xs h) in
    ap (λ n. whole n tid xs) e

pub take-whole :
    (l : ℕ) (tid ys zs : List ℕ)
    → length tid ≡ 12
    → take (20 + length ys) (whole l tid (ys ++ zs)) ≡ whole l tid ys
take-whole l tid ys zs h =
    let n : 20 + length ys ≡ suc (suc (suc (suc (suc (suc (suc (suc (length (tid ++ ys))))))))) =
      omega (arith, length-append tid ys) in
    ap (λ k. take k (whole l tid (ys ++ zs))) n
    ∙ ap
        (λ xs.
          be16 binding_response ++ (be16 l ++ (be32 magic_cookie ++ take (length (tid ++ ys)) xs)))
        (sym (append_assoc tid ys zs))
    ∙ ap (λ xs. be16 binding_response ++ (be16 l ++ (be32 magic_cookie ++ xs)))
        (take-length-append (tid ++ ys) zs)

pub drop-whole :
    (l : ℕ) (tid xs : List ℕ) → length tid ≡ 12 → drop header_size (whole l tid xs) ≡ xs
drop-whole l tid xs h = ap (λ n. drop n (tid ++ xs)) (sym h) ∙ drop-length-append tid xs

abbrev pub parsed : ℕ → List ℕ → List ℕ → StunMessage
parsed l tid xs = record {
  msg_type = binding_response;
  length_field = l;
  transaction_id = tid;
  attributes = attributes_from (length (whole l tid xs)) xs;
  raw = whole l tid xs;
}

message-whole :
    (l : ℕ) (tid xs : List ℕ)
    → length tid ≡ 12
    → l < 65536
    → message (whole l tid xs) ≡ parsed l tid xs
message-whole l tid xs h hl =
    let t : take 12 (tid ++ xs) ≡ tid =
      ap (λ n. take n (tid ++ xs)) (sym h) ∙ take-length-append tid xs in
    rw (drop-whole l tid xs h, from_be16-be16 l hl, t) refl

pub parse-whole :
    (tid xs : List ℕ)
    → length tid ≡ 12
    → length xs < 65536
    → length xs % 4 ≡ 0
    → parse (whole (length xs) tid xs) ≡ some (parsed (length xs) tid xs)
unfolding parse
parse-whole tid xs h hl aligned =
    let l = length xs in
    let buf = whole l tid xs in
    let size = length-whole l tid xs h in
    let short : ltb (length buf) header_size ≡ false = ground (arith, size) in
    let enough : ltb (length buf) (header_size + l) ≡ false = ground (arith, size) in
    let words : (l % 4 == 0) ≡ true = ground arith in
    let all : take (header_size + l) buf ≡ buf =
      ap (λ ys. take (header_size + l) (whole l tid ys)) (sym (append-nil xs))
      ∙ take-whole l tid xs [] h in
    rw (short, from_be16-be16 l hl, words, enough)
      (ap some (ap message all ∙ message-whole l tid xs h hl))

-- The attributes that a response has before its integrity value.
abbrev pub open_part : SocketAddr → List ℕ → List ℕ
open_part addr tid =
    attr_bytes attr_xor_mapped_address (encode_xor_mapped_address addr tid)
    ++ attr_bytes attr_software software

abbrev pub signed_part : SocketAddr → List ℕ → List ℕ → List ℕ
signed_part addr tid mac = open_part addr tid ++ attr_bytes attr_message_integrity mac

abbrev pub all_parts : SocketAddr → List ℕ → List ℕ → List ℕ → List ℕ
all_parts addr tid mac crc = signed_part addr tid mac ++ attr_bytes attr_fingerprint crc

pub with_address-whole :
    (tid : List ℕ) (addr : SocketAddr)
    → length tid ≡ 12
    → set_length
        (write_attr
          (write_attr
            (response_header tid)
            attr_xor_mapped_address
            (encode_xor_mapped_address addr tid))
          attr_software
          software)
        24
      ≡ whole (length (open_part addr tid) + 24) tid (open_part addr tid)
with_address-whole tid addr h =
    let a = attr_bytes attr_xor_mapped_address (encode_xor_mapped_address addr tid) in
    ap (λ b. set_length b 24) (write_attr-whole 0 tid a attr_software software)
    ∙ set_length-whole 0 tid (open_part addr tid) 24 h

pub same_bytes_self : (xs : List ℕ) → same_bytes xs xs ≡ true
unfolding same_bytes
same_bytes_self [] = refl
same_bytes_self (x ∷ xs) = ground (arith, same_bytes_self xs)

pub attributes_from-nil : (n : ℕ) → attributes_from n [] ≡ []
unfolding attributes_from
attributes_from-nil zero = refl
attributes_from-nil (suc n) = refl

-- The value of XOR-MAPPED-ADDRESS has 8 bytes, or 20.
length-xor_bytes : (xs ks : List ℕ) → length xs ≤ length ks → length (xor_bytes xs ks) ≡ length xs
unfolding xor_bytes
length-xor_bytes [] ks h = refl
length-xor_bytes (x ∷ xs) [] h = absurd (omega arith)
length-xor_bytes (x ∷ xs) (k ∷ ks) h = omega (arith, length-xor_bytes xs ks (omega arith))

pub length-address :
    (addr : SocketAddr) (tid : List ℕ)
    → length tid ≡ 12
    → (length (encode_xor_mapped_address addr tid) ≡ 8)
      ⊎ (length (encode_xor_mapped_address addr tid) ≡ 20)
unfolding encode_xor_mapped_address
length-address (v4 ip port) tid h =
    inl (omega (arith, length-xor_bytes (be32 ip) (be32 magic_cookie) (omega arith)))
length-address (v6 ip port flowinfo scope_id) tid h =
    inr (omega (arith, length-xor_bytes (be128 ip) (be32 magic_cookie ++ tid) (omega arith)))

-- The bytes of the attributes count to at most 100, in words.
pub length-all_parts :
    (addr : SocketAddr) (tid mac crc : List ℕ)
    → length tid ≡ 12
    → length mac ≡ 20
    → length crc ≡ 4
    → (length (all_parts addr tid mac crc) < 65536) × (length (all_parts addr tid mac crc) % 4 ≡ 0)
length-all_parts addr tid mac crc h hm hc =
    let x = encode_xor_mapped_address addr tid in
    let a = attr_bytes attr_xor_mapped_address x in
    let b = attr_bytes attr_software software in
    let m = attr_bytes attr_message_integrity mac in
    let c = attr_bytes attr_fingerprint crc in
    let total : length (all_parts addr tid mac crc) ≡ 56 + padded (length x) = omega (
      arith,
      length-append ((a ++ b) ++ m) c,
      length-append (a ++ b) m,
      length-append a b,
      length-attr_bytes attr_xor_mapped_address x,
      length-attr_bytes attr_software software,
      length-attr_bytes attr_message_integrity mac,
      length-attr_bytes attr_fingerprint crc,
    ) in
    elim (length-address addr tid h) [
      | inl e ↦ (omega (arith, total, e), omega (arith, total, e))
      | inr e ↦ (omega (arith, total, e), omega (arith, total, e))
    ]

pub length-drop : (n : ℕ) (xs : List ℕ) → length (drop n xs) ≡ length xs - n
length-drop zero xs = omega arith
length-drop (suc n) [] = omega arith
length-drop (suc n) (x ∷ xs) = omega (arith, length-drop n xs)

-- A parsed message has a transaction of twelve bytes.
pub length-transaction_id :
    (buf : List ℕ) (msg : StunMessage) → parse buf ≡ some msg → length msg.transaction_id ≡ 12
unfolding parse
length-transaction_id buf msg e =
    let all : 20 + read16 buf 2 ≤ length buf = ground (arith, e) in
    let m : some (message (take (header_size + read16 buf 2) buf)) ≡ some msg = ground (arith, e) in
    let n : length (take 12 (drop 8 (take (header_size + read16 buf 2) buf))) ≡ 12 = omega (
      arith,
      all,
      length-take 12 (drop 8 (take (header_size + read16 buf 2) buf)),
      length-drop 8 (take (header_size + read16 buf 2) buf),
      length-take (header_size + read16 buf 2) buf,
    ) in
    ap (λ x. length x.transaction_id) (sym (some-injective m)) ∙ n
