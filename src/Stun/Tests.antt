-- ===== src/Stun/Tests.antt =====
-- src/transport/stun.rs, ice.rs and udp/mod.rs (`handle_stun`): tests, and the witnesses of the
-- theorems about them. The HMAC is the first twenty bytes of the key and the data.
use oxlens_sfu_server.Prelude.{
  ℕ, String, ◌≡◌, refl, Bool, true, false, Option, none, some, List, [], ◌∷◌, ◌++◌, length, take,
  drop, replicate, same, if◌then◌else◌, lookup, put, assign, length-take, length-append, arith,
}
use oxlens_sfu_server.Participant
use oxlens_sfu_server.Participant.{SocketAddr, v4, same_addr, PcType, publish_pc, Participant}
use oxlens_sfu_server.Room
use oxlens_sfu_server.Room.{conference, Store, Pointer, Room}
use oxlens_sfu_server.Hub
use oxlens_sfu_server.Hub.{
  Hub, find_by_addr, latch_by_ufrag, create_room, enter, stun, Call, run, call,
}
use oxlens_sfu_server.Stun.{
  StunMessage, parse, message, username, find_attr, attributes_from, offset_from, attr_bytes,
  attr_username, attr_xor_mapped_address, binding_request, binding_response, build_binding_response,
  encode_xor_mapped_address, xor_bytes, get_attr, same_bytes, verify_message_integrity,
}
use oxlens_sfu_server.Rtcp.Mbcp.Utf8.{is_utf8}
use oxlens_sfu_server.Stun.Fuel.{attributes_from-fuel}
use oxlens_sfu_server.Stun.MappedAddress.{Reads}
use oxlens_sfu_server.Stun.Verify.{parse-build_binding_response}
use oxlens_sfu_server.Stun.Handle.{starts_with, until_colon, handle_stun_packet, handle_stun}
use oxlens_sfu_server.Stun.Handle.Laws.{handle_stun-unverified, handle_stun_packet-send_response}

abbrev hmac : (key : List ℕ) → List ℕ → List ℕ
hmac key bytes = take 20 (key ++ (bytes ++ replicate 20 0))

length-hmac : (key bytes : List ℕ) → length (hmac key bytes) ≡ 20
length-hmac key bytes =
    let pad : length {A = ℕ} (replicate 20 0) ≡ 20 = refl in
    omega (
      arith,
      length-take 20 (key ++ (bytes ++ replicate 20 0)),
      length-append key (bytes ++ replicate 20 0),
      length-append bytes (replicate 20 0),
      pad,
    )

abbrev crc32 : List ℕ → ℕ
crc32 bytes = length bytes

abbrev pwd : List ℕ
pwd = 112 ∷ 119 ∷ 100 ∷ []

abbrev tid : List ℕ
tid = 1 ∷ 2 ∷ 3 ∷ 4 ∷ 5 ∷ 6 ∷ 7 ∷ 8 ∷ 9 ∷ 10 ∷ 11 ∷ 12 ∷ []

abbrev home : SocketAddr
home = v4 3232235777 12345

-- "alice_pub" and "alice_pub:x"
abbrev alice_pub : List ℕ
alice_pub = 97 ∷ 108 ∷ 105 ∷ 99 ∷ 101 ∷ 95 ∷ 112 ∷ 117 ∷ 98 ∷ []

abbrev alice_name : List ℕ
alice_name = 97 ∷ 108 ∷ 105 ∷ 99 ∷ 101 ∷ 95 ∷ 112 ∷ 117 ∷ 98 ∷ 58 ∷ 120 ∷ []

-- A signed_request of alice's name with no integrity value.
abbrev unsigned : List ℕ
unsigned =
    0 ∷ 1 ∷ 0 ∷ 16 ∷ 33 ∷ 18 ∷ 164 ∷ 66 ∷ (tid ++ (0 ∷ 6 ∷ 0 ∷ 11 ∷ (alice_name ++ (0 ∷ []))))

-- One that is signed.
abbrev open_request : List ℕ
open_request =
    0 ∷ 1 ∷ 0 ∷ 40 ∷ 33 ∷ 18 ∷ 164 ∷ 66 ∷ (tid ++ (0 ∷ 6 ∷ 0 ∷ 11 ∷ (alice_name ++ (0 ∷ []))))

abbrev signed_request : List ℕ
signed_request = open_request ++ (0 ∷ 8 ∷ 0 ∷ 20 ∷ hmac pwd open_request)

abbrev text : List ℕ → String
text bytes = if same_bytes bytes alice_pub then "alice_pub" else "unknown"

abbrev as_bytes : String → List ℕ
as_bytes s = if same s "pwd" then pwd else []

abbrev no_dtls : SocketAddr → Bool
no_dtls addr = false

abbrev people : Store ℕ
people p = Participant.new "alice" "r" "alice_pub" "pwd" "alice_sub" "pwd" 1000

abbrev joining : List Call
joining = create_room "r" "Lounge" none conference 0 true 1 2 ∷ enter 0 1000 ∷ []

abbrev hub : Hub ℕ
hub = run (Hub.new people) joining

abbrev hub_of : Option (Hub ℕ × Pointer × PcType × Room) → Hub ℕ
hub_of none = hub
hub_of (some (h2, p, pc, r)) = h2

abbrev room_of : Option (Hub ℕ × Pointer × PcType × Room) → Room
room_of none = Room.new "none" "none" none conference 0 false 0 0
room_of (some (h2, p, pc, r)) = r

abbrev latched_hub : Hub ℕ
latched_hub = hub_of (latch_by_ufrag hub "alice_pub" home)

abbrev latched_room : Room
latched_room = room_of (latch_by_ufrag hub "alice_pub" home)

attributes_from-fuel_example :
    (attributes_from 100 (drop 20 unsigned)
      ≡ attributes_from (length (drop 20 unsigned)) (drop 20 unsigned))
    × (offset_from 100 20 (drop 20 unsigned) attr_username
        ≡ offset_from (length (drop 20 unsigned)) 20 (drop 20 unsigned) attr_username)
attributes_from-fuel_example =
    attributes_from-fuel 100 20 (drop 20 unsigned) attr_username (omega arith)

parse-build_binding_response_example :
    (msg : StunMessage) × (value : List ℕ) × (parse (build_binding_response hmac crc32 tid home pwd)
      ≡ some msg)
    × (msg.msg_type ≡ binding_response)
    × (msg.transaction_id ≡ tid)
    × (msg.raw ≡ build_binding_response hmac crc32 tid home pwd)
    × (get_attr msg attr_xor_mapped_address
        ≡ some (record { attr_type = attr_xor_mapped_address; value = value }))
    × Reads home value tid
    × (verify_message_integrity hmac msg pwd ≡ true)
parse-build_binding_response_example =
    parse-build_binding_response hmac crc32 tid home pwd length-hmac refl (omega arith)

handle_stun-unverified_example :
    ((handle_stun hmac crc32 text as_bytes no_dtls 2000 hub unsigned home).1.0 ≡ none)
    × (find_by_addr (handle_stun hmac crc32 text as_bytes no_dtls 2000 hub unsigned home).0 home
        ≡ some (0, publish_pc, latched_room))
unfolding parse find_attr attributes_from offset_from same_bytes verify_message_integrity
    starts_with until_colon is_utf8 build_binding_response encode_xor_mapped_address xor_bytes
    attr_bytes handle_stun_packet handle_stun run call Hub.new Hub.create Room.new
    Room.add_participant Hub.add_participant latch_by_ufrag Room.latch find_by_addr lookup put
    assign same_addr same Participant.new
handle_stun-unverified_example =
    handle_stun-unverified hmac crc32 text as_bytes no_dtls 2000 hub latched_hub unsigned home
      (message unsigned) alice_name 0 publish_pc latched_room refl refl refl refl refl

abbrev sent_response : List ℕ
sent_response = build_binding_response hmac crc32 tid home pwd

handle_stun_packet-send_response_example :
    (msg : StunMessage) × (name : List ℕ) × (reply : StunMessage) × (parse signed_request
      ≡ some msg)
    × (msg.msg_type ≡ binding_request)
    × (username msg ≡ some name)
    × (starts_with (alice_pub ++ (b':' ∷ [])) name ≡ true)
    × (verify_message_integrity hmac msg pwd ≡ true)
    × (home ≡ home)
    × (parse sent_response ≡ some reply)
    × (reply.msg_type ≡ binding_response)
    × (reply.transaction_id ≡ msg.transaction_id)
    × (verify_message_integrity hmac reply pwd ≡ true)
unfolding parse find_attr attributes_from offset_from same_bytes verify_message_integrity
    starts_with until_colon is_utf8 build_binding_response encode_xor_mapped_address xor_bytes
    attr_bytes handle_stun_packet handle_stun run call Hub.new Hub.create Room.new
    Room.add_participant Hub.add_participant latch_by_ufrag Room.latch find_by_addr lookup put
    assign same_addr same Participant.new
handle_stun_packet-send_response_example =
    handle_stun_packet-send_response hmac crc32 signed_request alice_pub pwd home home sent_response
      false length-hmac refl
