-- ===== src/Stun/Verify.antt =====
-- src/transport/stun.rs: a binding response is parsed to what it was built from, and verified.
use oxlens_sfu_server.Prelude.{
  ℕ, suc, ◌+◌, ◌<◌, ◌≡◌, refl, sym, ap, ◌∙◌, true, some, List, [], ◌∷◌, ◌++◌, append_assoc,
  append-nil, arith, length, length-append, take, drop, be32, and_then, inl, inr,
}
use Prim.Native.Nat.{bit_xor}
use oxlens_sfu_server.Rtcp.Mbcp.{padded}
use oxlens_sfu_server.Participant.{SocketAddr}
use oxlens_sfu_server.Stun.{
  header_size, binding_response, attr_xor_mapped_address, attr_software, attr_message_integrity,
  attr_fingerprint, software, StunAttribute, StunMessage, attributes_from, attr_bytes, offset_from,
  find_attr, find_attr_offset, get_attr, parse, set_length, with_integrity, with_fingerprint,
  build_binding_response, encode_xor_mapped_address, same_bytes, authenticated, verify_at,
  verify_received, verify_message_integrity,
}
use oxlens_sfu_server.Stun.Attributes.{
  length-attr_bytes, attributes_from-attr_bytes, offset_from-attr_bytes,
}
use oxlens_sfu_server.Stun.MappedAddress.{port_of, Reads, encode_xor_mapped_address-Reads}
use oxlens_sfu_server.Stun.Response.{
  whole, write_attr-whole, set_length-whole, length-whole, take-whole, drop-whole, parsed,
  parse-whole, open_part, signed_part, all_parts, with_address-whole, same_bytes_self,
  attributes_from-nil, length-address, length-all_parts,
}

-- The attributes that a response is made of.
abbrev response_attributes : SocketAddr → List ℕ → List ℕ → List ℕ → List StunAttribute
response_attributes addr tid mac crc =
    record { attr_type = attr_xor_mapped_address; value = encode_xor_mapped_address addr tid }
    ∷ record { attr_type = attr_software; value = software }
    ∷ record { attr_type = attr_message_integrity; value = mac }
    ∷ record { attr_type = attr_fingerprint; value = crc }
    ∷ []

short_address :
    (addr : SocketAddr) (tid : List ℕ)
    → length tid ≡ 12
    → length (encode_xor_mapped_address addr tid) < 65536
short_address addr tid h = elim (length-address addr tid h) [
  | inl e ↦ omega (arith, e)
  | inr e ↦ omega (arith, e)
]

attributes_from-all_parts :
    (n : ℕ) (addr : SocketAddr) (tid mac crc : List ℕ)
    → length tid ≡ 12
    → length mac ≡ 20
    → length crc ≡ 4
    → attributes_from (suc (suc (suc (suc n)))) (all_parts addr tid mac crc)
      ≡ response_attributes addr tid mac crc
attributes_from-all_parts n addr tid mac crc h hm hc =
    let x = encode_xor_mapped_address addr tid in
    let a = attr_bytes attr_xor_mapped_address x in
    let b = attr_bytes attr_software software in
    let m = attr_bytes attr_message_integrity mac in
    let c = attr_bytes attr_fingerprint crc in
    let flat : ((a ++ b) ++ m) ++ c ≡ a ++ (b ++ (m ++ (c ++ []))) =
      append_assoc (a ++ b) m c
      ∙ append_assoc a b (m ++ c)
      ∙ ap (λ ys. a ++ (b ++ (m ++ ys))) (sym (append-nil c)) in
    ap (attributes_from (suc (suc (suc (suc n))))) flat
    ∙ attributes_from-attr_bytes (suc (suc (suc n))) attr_xor_mapped_address x
        (b ++ (m ++ (c ++ []))) (omega arith) (short_address addr tid h)
    ∙ ap (λ ys. record { attr_type = attr_xor_mapped_address; value = x } ∷ ys)
        (attributes_from-attr_bytes (suc (suc n)) attr_software software (m ++ (c ++ []))
            (omega arith) (omega arith)
          ∙ ap (λ ys. record { attr_type = attr_software; value = software } ∷ ys)
              (attributes_from-attr_bytes (suc n) attr_message_integrity mac (c ++ []) (omega arith)
                  (omega (arith, hm))
                ∙ ap (λ ys. record { attr_type = attr_message_integrity; value = mac } ∷ ys)
                    (attributes_from-attr_bytes n attr_fingerprint crc [] (omega arith)
                        (omega (arith, hc))
                      ∙ ap (λ ys. record { attr_type = attr_fingerprint; value = crc } ∷ ys)
                          (attributes_from-nil n))))

-- Where the integrity value stands.
offset_from-all_parts :
    (n : ℕ) (addr : SocketAddr) (tid mac crc : List ℕ)
    → length tid ≡ 12
    → length mac ≡ 20
    → offset_from
        (suc (suc (suc n)))
        header_size
        (all_parts addr tid mac crc)
        attr_message_integrity
      ≡ some (20 + length (open_part addr tid))
offset_from-all_parts n addr tid mac crc h hm =
    let x = encode_xor_mapped_address addr tid in
    let a = attr_bytes attr_xor_mapped_address x in
    let b = attr_bytes attr_software software in
    let m = attr_bytes attr_message_integrity mac in
    let c = attr_bytes attr_fingerprint crc in
    let flat : ((a ++ b) ++ m) ++ c ≡ a ++ (b ++ (m ++ c)) =
      append_assoc (a ++ b) m c ∙ append_assoc a b (m ++ c) in
    let place : header_size + (4 + padded (length x)) + (4 + padded (length software))
        ≡ 20 + length (a ++ b) =
      omega (
        arith,
        length-append a b,
        length-attr_bytes attr_xor_mapped_address x,
        length-attr_bytes attr_software software,
      ) in
    ap (λ ys. offset_from (suc (suc (suc n))) header_size ys attr_message_integrity) flat
    ∙ offset_from-attr_bytes (suc (suc n)) header_size attr_xor_mapped_address
        attr_message_integrity x (b ++ (m ++ c)) (omega arith) (short_address addr tid h)
    ∙ offset_from-attr_bytes (suc n) (header_size + (4 + padded (length x))) attr_software
        attr_message_integrity software (m ++ c) (omega arith) (omega arith)
    ∙ offset_from-attr_bytes n
        (header_size + (4 + padded (length x)) + (4 + padded (length software)))
        attr_message_integrity attr_message_integrity mac c (omega arith) (omega (arith, hm))
    ∙ ap some place

module _ (hmac : (key : List ℕ) → List ℕ → List ℕ) (crc32 : List ℕ → ℕ)
    (twenty : (key bytes : List ℕ) → length (hmac key bytes) ≡ 20) (tid : List ℕ)
    (addr : SocketAddr) (key : List ℕ) (h : length tid ≡ 12) where
  abbrev signed : List ℕ
  signed = whole (length (open_part addr tid) + 24) tid (open_part addr tid)

  abbrev mac : List ℕ
  mac = hmac key signed

  abbrev crc : List ℕ
  crc = be32 (
      bit_xor (crc32 (whole (length (signed_part addr tid mac) + 8) tid (signed_part addr tid mac)))
        0x5354554e)

  abbrev parts : List ℕ
  parts = all_parts addr tid mac crc

  build-whole : build_binding_response hmac crc32 tid addr key ≡ whole (length parts) tid parts
  unfolding build_binding_response
  build-whole =
      let n : length parts + 0 ≡ length parts = omega arith in
      ap (λ b. with_fingerprint hmac crc32 (with_integrity hmac crc32 b key))
        (with_address-whole tid addr h)
      ∙ ap (λ b. with_fingerprint hmac crc32 (set_length b 8))
          (write_attr-whole (length (open_part addr tid) + 24) tid (open_part addr tid)
            attr_message_integrity mac)
      ∙ ap (with_fingerprint hmac crc32) (set_length-whole 0 tid (signed_part addr tid mac) 8 h)
      ∙ ap (λ b. set_length b 0)
          (write_attr-whole (length (signed_part addr tid mac) + 8) tid (signed_part addr tid mac)
            attr_fingerprint crc)
      ∙ set_length-whole 0 tid parts 0 h
      ∙ ap (λ l. whole l tid parts) n

  -- Enough fuel for both loops.
  fuel : (k : ℕ) × (length (whole (length parts) tid parts) ≡ suc (suc (suc (suc k))))
  fuel = (16 + length parts, omega (arith, length-whole (length parts) tid parts h))

  parsed-attributes :
      (parsed (length parts) tid parts).attributes ≡ response_attributes addr tid mac crc
  parsed-attributes =
      ap (λ n. attributes_from n parts) fuel.1
      ∙ attributes_from-all_parts fuel.0 addr tid mac crc h (twenty key signed) refl

  offset-parts :
      find_attr_offset (whole (length parts) tid parts) attr_message_integrity
      ≡ some (20 + length (open_part addr tid))
  offset-parts =
      ap
        (λ n.
          offset_from n header_size (drop header_size (whole (length parts) tid parts))
            attr_message_integrity)
        fuel.1
      ∙ ap (λ ys. offset_from (suc (suc (suc (suc fuel.0)))) header_size ys attr_message_integrity)
          (drop-whole (length parts) tid parts h)
      ∙ offset_from-all_parts (suc fuel.0) addr tid mac crc h (twenty key signed)

  signed-parts :
      authenticated (whole (length parts) tid parts) (20 + length (open_part addr tid)) ≡ signed
  signed-parts =
      let rest = attr_bytes attr_message_integrity mac ++ attr_bytes attr_fingerprint crc in
      ap
        (λ ys.
          set_length (take (20 + length (open_part addr tid)) (whole (length parts) tid ys)) 24)
        (append_assoc (open_part addr tid) (attr_bytes attr_message_integrity mac)
          (attr_bytes attr_fingerprint crc))
      ∙ ap (λ b. set_length b 24) (take-whole (length parts) tid (open_part addr tid) rest h)
      ∙ set_length-whole (length parts) tid (open_part addr tid) 24 h

  verify-parsed : verify_message_integrity hmac (parsed (length parts) tid parts) key ≡ true
  unfolding verify_message_integrity find_attr
  verify-parsed =
      let msg = parsed (length parts) tid parts in
      ap (verify_received hmac msg key) (
        ap (λ xs. and_then (find_attr attr_message_integrity xs) (λ a. some a.value))
          parsed-attributes)
      ∙ ap (verify_at hmac msg key mac) offset-parts
      ∙ ap (λ b. same_bytes (hmac key b) mac) signed-parts
      ∙ same_bytes_self mac

-- The response is parsed to the attributes that were written, and is verified.
pub build_binding_response-parsed :
    (hmac : (key : List ℕ) → List ℕ → List ℕ) (crc32 : List ℕ → ℕ) (tid : List ℕ)
    (addr : SocketAddr) (key : List ℕ)
    → ((key bytes : List ℕ) → length (hmac key bytes) ≡ 20)
    → length tid ≡ 12
    → (msg : StunMessage) × (parse (build_binding_response hmac crc32 tid addr key) ≡ some msg)
      × (msg.msg_type ≡ binding_response)
      × (msg.transaction_id ≡ tid)
      × (msg.raw ≡ build_binding_response hmac crc32 tid addr key)
      × (get_attr msg attr_xor_mapped_address
          ≡ some (record {
            attr_type = attr_xor_mapped_address;
            value = encode_xor_mapped_address addr tid;
          }))
      × (verify_message_integrity hmac msg key ≡ true)
unfolding find_attr
build_binding_response-parsed hmac crc32 tid addr key twenty h =
    let xs = parts hmac crc32 twenty tid addr key h in
    let built = build-whole hmac crc32 twenty tid addr key h in
    let fits =
      length-all_parts addr tid (mac hmac crc32 twenty tid addr key h)
        (crc hmac crc32 twenty tid addr key h) h
        (twenty key (signed hmac crc32 twenty tid addr key h)) refl in
    (
      parsed (length xs) tid xs,
      ap parse built ∙ parse-whole tid xs h fits.0 fits.1,
      refl,
      refl,
      sym built,
      ap (find_attr attr_xor_mapped_address) (parsed-attributes hmac crc32 twenty tid addr key h),
      verify-parsed hmac crc32 twenty tid addr key h,
    )

-- The response to a request's transaction of twelve bytes, for any address with a port of 16 bits
-- and any key, is a message that is parsed (its HMAC having twenty bytes): a binding response of
-- that transaction, of all the bytes built; its XOR-MAPPED-ADDRESS is one in which a client, who
-- takes the magic cookie and the transaction off, reads the family, the port and the octets of the
-- address; and its integrity is verified under the key.
pub parse-build_binding_response :
    (hmac : (key : List ℕ) → List ℕ → List ℕ) (crc32 : List ℕ → ℕ) (tid : List ℕ)
    (addr : SocketAddr) (key : List ℕ)
    → ((key bytes : List ℕ) → length (hmac key bytes) ≡ 20)
    → length tid ≡ 12
    → port_of addr < 65536
    → (msg : StunMessage) × (value : List ℕ) × (parse
          (build_binding_response hmac crc32 tid addr key)
        ≡ some msg)
      × (msg.msg_type ≡ binding_response)
      × (msg.transaction_id ≡ tid)
      × (msg.raw ≡ build_binding_response hmac crc32 tid addr key)
      × (get_attr msg attr_xor_mapped_address
          ≡ some (record { attr_type = attr_xor_mapped_address; value = value }))
      × Reads addr value tid
      × (verify_message_integrity hmac msg key ≡ true)
parse-build_binding_response hmac crc32 tid addr key twenty h hp =
    let (msg, built, typed, answers, bytes, address, verified) =
      build_binding_response-parsed hmac crc32 tid addr key twenty h in
    (
      msg,
      encode_xor_mapped_address addr tid,
      built,
      typed,
      answers,
      bytes,
      address,
      encode_xor_mapped_address-Reads addr tid hp h,
      verified,
    )
