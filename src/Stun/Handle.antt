-- ===== src/Stun/Handle.antt =====
-- src/transport/demux.rs (`classify`), src/transport/ice.rs (`handle_stun_packet`) and
-- src/transport/udp/mod.rs (`handle_stun`): what becomes of a STUN packet. HMAC-SHA1 and CRC-32
-- are parameters; so are the conversions of Rust's standard library between texts and bytes, and
-- the test whether a DTLS handshake runs for an address. Sending and the handshake are answers.
pub mod Laws
use oxlens_sfu_server.Prelude.{
  ℕ, ◌+◌, ◌*◌, String, Bool, true, false, not, ◌&&◌, Option, none, some, List, [], ◌∷◌, ◌++◌, ltb,
  leb, ◌==◌, if◌then◌else◌, and_then,
}
use oxlens_sfu_server.Participant.{SocketAddr, PcType, MediaSession, session, touch}
use oxlens_sfu_server.Room.{Pointer, Room, write}
use oxlens_sfu_server.Hub.{Hub, latch_by_ufrag}
use oxlens_sfu_server.Stun.{
  StunMessage, parse, username, has_use_candidate, binding_request, build_binding_response,
  verify_message_integrity,
}

-- `enum PacketType`
pub data PacketType : Type 0 where
  stun : PacketType
  dtls : PacketType
  srtp : PacketType
  unknown : PacketType

abbrev pub within : (low high : ℕ) → ℕ → Bool
within low high b = leb low b && leb b high

unfoldable pub classify : List ℕ → PacketType
classify [] = unknown
classify (first ∷ rest) =
    if within 0x00 0x03 first
    then stun
    else if within 0x14 0x3f first
    then dtls
    else if within 0x80 0xbf first
    then srtp
    else unknown

-- `starts_with`
unfoldable pub starts_with : List ℕ → List ℕ → Bool
starts_with [] s = true
starts_with (p ∷ ps) [] = false
starts_with (p ∷ ps) (c ∷ cs) = p == c && starts_with ps cs

-- `split(':').next()`
unfoldable pub until_colon : List ℕ → List ℕ
until_colon [] = []
until_colon (c ∷ cs) = let rest = until_colon cs in if c == b':' then [] else c ∷ rest

-- `enum IceResult`
pub data IceResult : Type 0 where
  send_response : (bytes : List ℕ) → SocketAddr → (use_candidate : Bool) → IceResult
  ignore : IceResult

-- What `handle_stun` leaves: the hub, the response that is sent, and the session whose DTLS
-- handshake it starts.
abbrev pub Handled : Type 0 → Type 0
Handled F = Hub F × (Option (List ℕ) × Option (Pointer × PcType))

abbrev pub touched : {F : Type 0} → Hub F → Pointer → (now : ℕ) → Hub F
touched h p now = record h { store = write h.store p (touch (h.store p) now) }

abbrev pub key_of : {F : Type 0} → (String → List ℕ) → Hub F → Pointer → PcType → List ℕ
key_of as_bytes h p pc = as_bytes (session (h.store p) pc).ice_pwd

module _ (compute_hmac_sha1 : (key : List ℕ) → List ℕ → List ℕ) (crc32 : List ℕ → ℕ) where
  -- `handle_stun_packet`, after the parser and after the look for a user name.
  abbrev pub answer_user :
      SocketAddr → (ufrag key : List ℕ) → StunMessage → Option (List ℕ) → IceResult
  answer_user remote ufrag key msg none = ignore
  answer_user remote ufrag key msg (some name) =
      if not (starts_with (ufrag ++ (b':' ∷ [])) name)
      then ignore
      else if not (verify_message_integrity compute_hmac_sha1 msg key)
      then ignore
      else send_response
          (build_binding_response compute_hmac_sha1 crc32 msg.transaction_id remote key) remote
          (has_use_candidate msg)

  abbrev pub answer : SocketAddr → (ufrag key : List ℕ) → Option StunMessage → IceResult
  answer remote ufrag key none = ignore
  answer remote ufrag key (some msg) =
      if not (msg.msg_type == binding_request)
      then ignore
      else answer_user remote ufrag key msg (username msg)

  -- The integrity key is the password's bytes (`ice_integrity_key`).
  unfoldable pub handle_stun_packet : (buf : List ℕ) → SocketAddr → (ufrag pwd : List ℕ) → IceResult
  handle_stun_packet buf remote ufrag pwd = answer remote ufrag pwd (parse buf)

  module _ {F : Type 0} (text : List ℕ → String) (as_bytes : String → List ℕ) where
    -- After the latch: the participant is seen, and only then is the integrity verified.
    abbrev pub after_latch :
        (has_dtls : Bool) (now : ℕ)
        → Hub F
        → SocketAddr
        → StunMessage
        → Option (Hub F × Pointer × PcType × Room)
        → Handled F
    after_latch has_dtls now h remote msg none = (h, (none, none))
    after_latch has_dtls now h remote msg (some (h2, p, pc, r)) =
        let h3 = touched h2 p now in
        if not (verify_message_integrity compute_hmac_sha1 msg (key_of as_bytes h3 p pc))
        then (h3, (none, none))
        else (
          h3,
          (
            some (
                build_binding_response compute_hmac_sha1 crc32 msg.transaction_id remote
                  (key_of as_bytes h3 p pc)),
            if has_use_candidate msg && not has_dtls then some (p, pc) else none,
          ),
        )

    abbrev pub after_user :
        (has_dtls : Bool) (now : ℕ) → Hub F → SocketAddr → StunMessage → Option (List ℕ) → Handled F
    after_user has_dtls now h remote msg none = (h, (none, none))
    after_user has_dtls now h remote msg (some name) =
        after_latch has_dtls now h remote msg (latch_by_ufrag h (text (until_colon name)) remote)

    abbrev pub after_parse :
        (has_dtls : Bool) (now : ℕ) → Hub F → SocketAddr → Option StunMessage → Handled F
    after_parse has_dtls now h remote none = (h, (none, none))
    after_parse has_dtls now h remote (some msg) =
        if not (msg.msg_type == binding_request)
        then (h, (none, none))
        else after_user has_dtls now h remote msg (username msg)

    unfoldable pub handle_stun :
        (has_dtls : SocketAddr → Bool) (now : ℕ) → Hub F → (buf : List ℕ) → SocketAddr → Handled F
    handle_stun has_dtls now h buf remote = after_parse (has_dtls remote) now h remote (parse buf)
