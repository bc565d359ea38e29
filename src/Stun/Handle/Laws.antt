-- ===== src/Stun/Handle/Laws.antt =====
-- src/transport/ice.rs and src/transport/udp/mod.rs: whom a STUN request is answered, and what it
-- changes.
use oxlens_sfu_server.Prelude.{
  ℕ, String, ◌≡◌, refl, ap, ◌∙◌, Bool, Bool-cases, true, false, Option, none, some, List, [], ◌∷◌,
  ◌++◌, arith, ◌==◌, inl, inr, length,
}
use oxlens_sfu_server.Participant.{SocketAddr, PcType}
use oxlens_sfu_server.Room.{Pointer, Room}
use oxlens_sfu_server.Hub.{Hub, latch_by_ufrag, find_by_addr, call, seen}
use oxlens_sfu_server.Hub.Index.{IsValid, LatchedOk}
use oxlens_sfu_server.Hub.Runs.{call-IsValid, latch_by_ufrag-IsValid}
use oxlens_sfu_server.Hub.Lookups.{find_by_addr-latch_by_ufrag}
use oxlens_sfu_server.Stun.{
  StunMessage, parse, username, has_use_candidate, binding_request, binding_response,
  build_binding_response, verify_message_integrity,
}
use oxlens_sfu_server.Stun.Response.{length-transaction_id}
use oxlens_sfu_server.Stun.Verify.{build_binding_response-parsed}
use oxlens_sfu_server.Stun.Handle.{
  send_response, answer_user, answer, handle_stun_packet, starts_with, until_colon, touched, key_of,
  after_latch, after_user, after_parse, handle_stun,
}

module _ (hmac : (key : List ℕ) → List ℕ → List ℕ) (crc32 : List ℕ → ℕ) {F : Type 0}
    (text : List ℕ → String) (as_bytes : String → List ℕ) where
  -- A binding request that has a user name, and whose ICE name is known, but whose integrity
  -- is not verified, is not answered; but its sender's address leads to the participant, session
  -- and room of that name from then on.
  pub handle_stun-unverified :
      (has_dtls : SocketAddr → Bool) (now : ℕ) (h h2 : Hub F) (buf : List ℕ) (remote : SocketAddr)
      (msg : StunMessage) (name : List ℕ) (p : Pointer) (pc : PcType) (r : Room)
      → parse buf ≡ some msg
      → msg.msg_type ≡ binding_request
      → username msg ≡ some name
      → latch_by_ufrag h (text (until_colon name)) remote ≡ some (h2, p, pc, r)
      → verify_message_integrity hmac msg (key_of as_bytes (touched h2 p now) p pc) ≡ false
      → ((handle_stun hmac crc32 text as_bytes has_dtls now h buf remote).1.0 ≡ none)
        × (find_by_addr (handle_stun hmac crc32 text as_bytes has_dtls now h buf remote).0 remote
            ≡ some (p, pc, r))
  unfolding handle_stun find_by_addr
  handle_stun-unverified has_dtls now h h2 buf remote msg name p pc r e_parse e_type e_name e_latch
        bad =
      let is_request : (msg.msg_type == binding_request) ≡ true = ground (arith, e_type) in
      let request : after_parse hmac crc32 text as_bytes (has_dtls remote) now h remote (some msg)
          ≡ after_user hmac crc32 text as_bytes (has_dtls remote) now h remote msg (username msg) =
        rw is_request refl in
      let unverified : after_latch hmac crc32 text as_bytes (has_dtls remote) now h remote msg
            (some (h2, p, pc, r))
          ≡ (touched h2 p now, (none, none)) =
        rw bad refl in
      let e : handle_stun hmac crc32 text as_bytes has_dtls now h buf remote
          ≡ (touched h2 p now, (none, none)) =
        ap (after_parse hmac crc32 text as_bytes (has_dtls remote) now h remote) e_parse
        ∙ request
        ∙ ap (after_user hmac crc32 text as_bytes (has_dtls remote) now h remote msg) e_name
        ∙ ap (after_latch hmac crc32 text as_bytes (has_dtls remote) now h remote msg) e_latch
        ∙ unverified in
      (
        ap (λ x. x.1.0) e,
        ap (λ x. find_by_addr x.0 remote) e
            ∙ (find_by_addr-latch_by_ufrag h h2 (text (until_colon name)) remote p pc r e_latch).0,
      )

  latch-IsValid :
      (has_dtls : Bool) (now : ℕ) (h : Hub F) (remote : SocketAddr) (msg : StunMessage)
      (o : Option (Hub F × Pointer × PcType × Room))
      → IsValid h
      → LatchedOk o
      → IsValid (after_latch hmac crc32 text as_bytes has_dtls now h remote msg o).0
  unfolding call
  latch-IsValid has_dtls now h remote msg none v w = v
  latch-IsValid has_dtls now h remote msg (some (h2, p, pc, r)) v w =
      elim (Bool-cases
        (verify_message_integrity hmac msg (key_of as_bytes (touched h2 p now) p pc))) [
          | inl good ↦ rw good (call-IsValid h2 (seen p now) w)
          | inr bad ↦ rw bad (call-IsValid h2 (seen p now) w)
        ]

  user-IsValid :
      (has_dtls : Bool) (now : ℕ) (h : Hub F) (remote : SocketAddr) (msg : StunMessage)
      (o : Option (List ℕ))
      → IsValid h
      → IsValid (after_user hmac crc32 text as_bytes has_dtls now h remote msg o).0
  user-IsValid has_dtls now h remote msg none v = v
  user-IsValid has_dtls now h remote msg (some name) v =
      latch-IsValid has_dtls now h remote msg (latch_by_ufrag h (text (until_colon name)) remote) v
        (latch_by_ufrag-IsValid h (text (until_colon name)) remote v)

  parse-IsValid :
      (has_dtls : Bool) (now : ℕ) (h : Hub F) (remote : SocketAddr) (o : Option StunMessage)
      → IsValid h
      → IsValid (after_parse hmac crc32 text as_bytes has_dtls now h remote o).0
  parse-IsValid has_dtls now h remote none v = v
  parse-IsValid has_dtls now h remote (some msg) v =
      elim (Bool-cases (msg.msg_type == binding_request)) [
        | inl is ↦ rw is (user-IsValid has_dtls now h remote msg (username msg) v)
        | inr other ↦ rw other v
      ]

  -- Whatever bytes arrive from whatever address, the hub that `handle_stun` leaves has its indices
  -- right where the hub before had: each room stands under its id, nobody is listed twice, and
  -- every entry leads to a listed participant whose session has that ICE name or address.
  handle_stun-IsValid :
      (has_dtls : SocketAddr → Bool) (now : ℕ) (h : Hub F) (buf : List ℕ) (remote : SocketAddr)
      → IsValid h
      → IsValid (handle_stun hmac crc32 text as_bytes has_dtls now h buf remote).0
  unfolding handle_stun
  handle_stun-IsValid has_dtls now h buf remote v =
      parse-IsValid (has_dtls remote) now h remote (parse buf) v

-- What a response to a request means.
module _ (hmac : (key : List ℕ) → List ℕ → List ℕ) (crc32 : List ℕ → ℕ) (buf ufrag pwd : List ℕ)
    (remote to : SocketAddr) (bytes : List ℕ) (uc : Bool) where
  abbrev Verified : StunMessage → List ℕ → Type 0
  Verified msg name =
      (username msg ≡ some name)
      × (starts_with (ufrag ++ (b':' ∷ [])) name ≡ true)
      × (verify_message_integrity hmac msg pwd ≡ true)
      × (bytes ≡ build_binding_response hmac crc32 msg.transaction_id remote pwd)
      × (to ≡ remote)

  answer_user-send :
      (msg : StunMessage) (o : Option (List ℕ))
      → username msg ≡ o
      → answer_user hmac crc32 remote ufrag pwd msg o ≡ send_response bytes to uc
      → (name : List ℕ) × Verified msg name
  answer_user-send msg none e_name e = absurd (ground (arith, e))
  answer_user-send msg (some name) e_name e =
      elim (Bool-cases (starts_with (ufrag ++ (b':' ∷ [])) name)) [
        | inr other ↦ absurd (ground (arith, e, other))
        | inl is ↦ elim (Bool-cases (verify_message_integrity hmac msg pwd)) [
          | inr bad ↦ absurd (ground (arith, e, is, bad))
          | inl good ↦
              let sent : send_response
                    (build_binding_response hmac crc32 msg.transaction_id remote pwd) remote
                    (has_use_candidate msg)
                  ≡ send_response bytes to uc =
                rw (is, good) at e in
              (name, (e_name, is, good, cc, cc))
        ]
      ]

  answer-send :
      (o : Option StunMessage)
      → answer hmac crc32 remote ufrag pwd o ≡ send_response bytes to uc
      → (msg : StunMessage) × (o ≡ some msg)
        × (msg.msg_type ≡ binding_request)
        × ((name : List ℕ) × Verified msg name)
  answer-send none e = absurd (ground (arith, e))
  answer-send (some msg) e = elim (Bool-cases (msg.msg_type == binding_request)) [
    | inr other ↦ absurd (ground (arith, e, other))
    | inl is ↦
        let sent : answer_user hmac crc32 remote ufrag pwd msg (username msg)
            ≡ send_response bytes to uc =
          rw is at e in
        (msg, refl, ground (arith, is), answer_user-send msg (username msg) refl sent)
  ]

-- When `handle_stun_packet` has a response sent, then the packet is a binding request whose user
-- name begins with the server's name and a colon, and whose integrity is verified under the
-- server's password; the response goes to the sender, and (the HMAC having twenty bytes) it is
-- parsed to a binding response of the request's transaction that is verified under that password.
pub handle_stun_packet-send_response :
    (hmac : (key : List ℕ) → List ℕ → List ℕ) (crc32 : List ℕ → ℕ) (buf ufrag pwd : List ℕ)
    (remote to : SocketAddr) (bytes : List ℕ) (uc : Bool)
    → ((key data_bytes : List ℕ) → length (hmac key data_bytes) ≡ 20)
    → handle_stun_packet hmac crc32 buf remote ufrag pwd ≡ send_response bytes to uc
    → (msg : StunMessage) × (name : List ℕ) × (reply : StunMessage) × (parse buf ≡ some msg)
      × (msg.msg_type ≡ binding_request)
      × (username msg ≡ some name)
      × (starts_with (ufrag ++ (b':' ∷ [])) name ≡ true)
      × (verify_message_integrity hmac msg pwd ≡ true)
      × (to ≡ remote)
      × (parse bytes ≡ some reply)
      × (reply.msg_type ≡ binding_response)
      × (reply.transaction_id ≡ msg.transaction_id)
      × (verify_message_integrity hmac reply pwd ≡ true)
unfolding handle_stun_packet
handle_stun_packet-send_response hmac crc32 buf ufrag pwd remote to bytes uc twenty e =
    let sent = answer-send hmac crc32 buf ufrag pwd remote to bytes uc (parse buf) e in
    let msg = sent.0 in
    let named = sent.3 in
    let built =
      build_binding_response-parsed hmac crc32 msg.transaction_id remote pwd twenty
        (length-transaction_id buf msg sent.1) in
    (
      msg,
      named.0,
      built.0,
      sent.1,
      sent.2,
      named.1.0,
      named.1.1,
      named.1.2,
      named.1.4,
      ap parse named.1.3 ∙ built.1,
      built.2,
      built.3,
      built.6,
    )
