-- ===== src/Stun.antt =====
-- src/transport/stun.rs: STUN messages, and src/transport/ice.rs (`handle_stun_packet`). Texts
-- are lists of bytes. HMAC-SHA1 (a key, then the data) and CRC-32 are parameters.
pub mod Handle
mod Attributes
mod Response
mod Xor
mod MappedAddress
mod Verify
mod Fuel
mod Tests
use oxlens_sfu_server.Prelude.{
  ℕ, zero, suc, ◌+◌, ◌-◌, ◌/◌, ◌%◌, ◌^◌, Bool, true, false, not, ◌&&◌, Option, none, some, List, [],
  ◌∷◌, ◌++◌, ltb, ◌==◌, if◌then◌else◌, length, take, drop, replicate, byte_at, read16, read32,
  from_be32, be16, be32, write16, and_then,
}
use Prim.Native.Nat.{bit_xor}
use oxlens_sfu_server.Rtcp.Mbcp.{padded}
use oxlens_sfu_server.Rtcp.Mbcp.Utf8.{is_utf8}
use oxlens_sfu_server.Participant.{SocketAddr, v4, v6}

abbrev pub magic_cookie : ℕ
magic_cookie = 0x2112a442

abbrev pub header_size : ℕ
header_size = 20

-- BINDING_REQUEST and BINDING_RESPONSE
abbrev pub binding_request : ℕ
binding_request = 0x0001

abbrev pub binding_response : ℕ
binding_response = 0x0101

-- The types of attributes.
abbrev pub attr_username : ℕ
attr_username = 0x0006

abbrev pub attr_message_integrity : ℕ
attr_message_integrity = 0x0008

abbrev pub attr_xor_mapped_address : ℕ
attr_xor_mapped_address = 0x0020

abbrev pub attr_priority : ℕ
attr_priority = 0x0024

abbrev pub attr_use_candidate : ℕ
attr_use_candidate = 0x0025

abbrev pub attr_fingerprint : ℕ
attr_fingerprint = 0x8028

abbrev pub attr_software : ℕ
attr_software = 0x8022

pub record StunAttribute : Type 0 where
  pub attr_type : ℕ
  pub value : List ℕ

pub record StunMessage : Type 0 where
  pub msg_type : ℕ
  pub length_field : ℕ
  pub transaction_id : List ℕ
  pub attributes : List StunAttribute
  pub raw : List ℕ

abbrev pub attr_at : List ℕ → StunAttribute
attr_at rest = record { attr_type = read16 rest 0; value = take (read16 rest 2) (drop 4 rest) }

-- The loop of `parse`, over the bytes from the offset on; its fuel is the number of rounds.
unfoldable pub attributes_from : ℕ → List ℕ → List StunAttribute
attributes_from zero rest = []
attributes_from (suc n) rest =
    let more = attributes_from n (drop (4 + padded (read16 rest 2)) rest) in
    if ltb (length rest) 4
    then []
    else if ltb (length rest) (4 + read16 rest 2)
    then []
    else attr_at rest ∷ more

-- The message up to the end that its header gives.
abbrev pub message : List ℕ → StunMessage
message raw = record {
  msg_type = read16 raw 0;
  length_field = read16 raw 2;
  transaction_id = take 12 (drop 8 raw);
  attributes = attributes_from (length raw) (drop header_size raw);
  raw = raw;
}

unfoldable pub parse : List ℕ → Option StunMessage
parse buf =
    if ltb (length buf) header_size
    then none
    else if not (ltb (byte_at buf 0) 64)
    then none
    else if not (read32 buf 4 == magic_cookie)
    then none
    else if not (read16 buf 2 % 4 == 0)
    then none
    else if ltb (length buf) (header_size + read16 buf 2)
    then none
    else some (message (take (header_size + read16 buf 2) buf))

unfoldable pub find_attr : ℕ → List StunAttribute → Option StunAttribute
find_attr attr_type [] = none
find_attr attr_type (a ∷ rest) =
    let later = find_attr attr_type rest in if a.attr_type == attr_type then some a else later

abbrev pub get_attr : StunMessage → ℕ → Option StunAttribute
get_attr msg attr_type = find_attr attr_type msg.attributes

abbrev pub username : StunMessage → Option (List ℕ)
username msg =
    and_then (get_attr msg attr_username) (λ a. if is_utf8 a.value then some a.value else none)

abbrev pub is_some : {A : Type 0} → Option A → Bool
is_some none = false
is_some (some a) = true

abbrev pub has_use_candidate : StunMessage → Bool
has_use_candidate msg = is_some (get_attr msg attr_use_candidate)

unfoldable pub priority : StunMessage → Option ℕ
priority msg =
    and_then (get_attr msg attr_priority)
      (λ a. if length a.value == 4 then some (read32 a.value 0) else none)

abbrev pub message_integrity : StunMessage → Option (List ℕ)
message_integrity msg = and_then (get_attr msg attr_message_integrity) (λ a. some a.value)

-- The bytes of an attribute: `write_attr` appends them.
unfoldable pub attr_bytes : ℕ → List ℕ → List ℕ
attr_bytes attr_type value =
    be16 attr_type ++ (be16 (length value) ++ (value ++ replicate ((4 - length value % 4) % 4) 0))

abbrev pub write_attr : List ℕ → ℕ → List ℕ → List ℕ
write_attr buf attr_type value = buf ++ attr_bytes attr_type value

unfoldable pub xor_bytes : List ℕ → List ℕ → List ℕ
xor_bytes [] ks = []
xor_bytes (a ∷ xs) [] = []
xor_bytes (a ∷ xs) (k ∷ ks) = bit_xor a k ∷ xor_bytes xs ks

-- The sixteen octets of an IPv6 address.
abbrev pub be128 : ℕ → List ℕ
be128 ip = be32 (ip / 2 ^ 96) ++ (be32 (ip / 2 ^ 64) ++ (be32 (ip / 2 ^ 32) ++ be32 ip))

unfoldable pub encode_xor_mapped_address : SocketAddr → (transaction_id : List ℕ) → List ℕ
encode_xor_mapped_address (v4 ip port) transaction_id =
    0 ∷ 1 ∷ (be16 (bit_xor port 0x2112) ++ xor_bytes (be32 ip) (be32 magic_cookie))
encode_xor_mapped_address (v6 ip port flowinfo scope_id) transaction_id =
    0
    ∷ 2
    ∷ (be16 (bit_xor port 0x2112) ++ xor_bytes (be128 ip) (be32 magic_cookie ++ transaction_id))

-- "light-livechat"
abbrev pub software : List ℕ
software = 108 ∷ 105 ∷ 103 ∷ 104 ∷ 116 ∷ 45 ∷ 108 ∷ 105 ∷ 118 ∷ 101 ∷ 99 ∷ 104 ∷ 97 ∷ 116 ∷ []

-- The length field, set to what the buffer has behind its header and some bytes more.
abbrev pub set_length : List ℕ → ℕ → List ℕ
set_length buf more = write16 buf 2 (length buf - header_size + more)

abbrev pub response_header : List ℕ → List ℕ
response_header transaction_id =
    be16 binding_response ++ (be16 0 ++ (be32 magic_cookie ++ transaction_id))

module _ (compute_hmac_sha1 : (key : List ℕ) → List ℕ → List ℕ) (crc32 : List ℕ → ℕ) where
  abbrev pub with_address : List ℕ → SocketAddr → List ℕ
  with_address transaction_id addr =
      set_length
        (write_attr
          (write_attr (response_header transaction_id) attr_xor_mapped_address
            (encode_xor_mapped_address addr transaction_id))
          attr_software software)
        24

  abbrev pub with_integrity : List ℕ → List ℕ → List ℕ
  with_integrity buf key =
      set_length (write_attr buf attr_message_integrity (compute_hmac_sha1 key buf)) 8

  abbrev pub with_fingerprint : List ℕ → List ℕ
  with_fingerprint buf =
      set_length (write_attr buf attr_fingerprint (be32 (bit_xor (crc32 buf) 0x5354554e))) 0

  unfoldable pub build_binding_response :
      (transaction_id : List ℕ) (remote_addr : SocketAddr) (integrity_key : List ℕ) → List ℕ
  build_binding_response transaction_id remote_addr integrity_key =
      with_fingerprint (with_integrity (with_address transaction_id remote_addr) integrity_key)

-- The loop of `find_attr_offset`, from an offset on.
unfoldable pub offset_from : ℕ → ℕ → List ℕ → ℕ → Option ℕ
offset_from zero offset rest target_type = none
offset_from (suc n) offset rest target_type =
    let step = 4 + padded (read16 rest 2) in
    let later = offset_from n (offset + step) (drop step rest) target_type in
    if ltb (length rest) 4
    then none
    else if read16 rest 0 == target_type
    then some offset
    else later

abbrev pub find_attr_offset : List ℕ → ℕ → Option ℕ
find_attr_offset raw target_type =
    offset_from (length raw) header_size (drop header_size raw) target_type

-- Both of one length, and the same bytes.
unfoldable pub same_bytes : List ℕ → List ℕ → Bool
same_bytes [] [] = true
same_bytes [] (b ∷ ys) = false
same_bytes (a ∷ xs) [] = false
same_bytes (a ∷ xs) (b ∷ ys) = a == b && same_bytes xs ys

-- The bytes that the integrity value is computed over.
abbrev pub authenticated : List ℕ → ℕ → List ℕ
authenticated raw mi_offset = set_length (take mi_offset raw) 24

module _ (compute_hmac_sha1 : (key : List ℕ) → List ℕ → List ℕ) where
  abbrev pub verify_at : StunMessage → (key received : List ℕ) → Option ℕ → Bool
  verify_at msg key received none = false
  verify_at msg key received (some mi_offset) =
      same_bytes (compute_hmac_sha1 key (authenticated msg.raw mi_offset)) received

  abbrev pub verify_received : StunMessage → (key : List ℕ) → Option (List ℕ) → Bool
  verify_received msg key none = false
  verify_received msg key (some received) =
      verify_at msg key received (find_attr_offset msg.raw attr_message_integrity)

  unfoldable pub verify_message_integrity : StunMessage → (key : List ℕ) → Bool
  verify_message_integrity msg key = verify_received msg key (message_integrity msg)
