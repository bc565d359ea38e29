-- ===== src/Stun/MappedAddress.antt =====
-- src/transport/stun.rs: XOR-MAPPED-ADDRESS, as a client reads it (RFC 8489, 14.2).
use Prim.Native.Nat.{bit_xor}
use oxlens_sfu_server.Prelude.{
  ℕ, ◌≤◌, ◌<◌, ◌≡◌, refl, ◌∙◌, ap, List, [], ◌∷◌, ◌++◌, arith, length, drop, read16, byte_at, be16,
  be32,
}
use oxlens_sfu_server.Participant.{SocketAddr, v4, v6}
use oxlens_sfu_server.Stun.{magic_cookie, encode_xor_mapped_address, be128, xor_bytes}
use oxlens_sfu_server.Stun.Xor.{bit_xor-bit_xor, bit_xor-bounded}

-- A client takes the family from the second byte; it has the port from the two bytes behind it and
-- the address from the rest, with the magic cookie and the transaction taken off.
abbrev pub family : List ℕ → ℕ
family value = byte_at value 1

abbrev pub mapped_port : List ℕ → ℕ
mapped_port value = bit_xor (read16 value 2) 0x2112

abbrev pub octets : List ℕ → (transaction_id : List ℕ) → List ℕ
octets value transaction_id = xor_bytes (drop 4 value) (be32 magic_cookie ++ transaction_id)

abbrev pub port_of : SocketAddr → ℕ
port_of (v4 ip port) = port
port_of (v6 ip port flowinfo scope_id) = port

-- The client reads the address.
abbrev pub Reads : SocketAddr → (value transaction_id : List ℕ) → Type 0
Reads (v4 ip port) value transaction_id =
    (family value ≡ 1) × (mapped_port value ≡ port) × (octets value transaction_id ≡ be32 ip)
Reads (v6 ip port flowinfo scope_id) value transaction_id =
    (family value ≡ 2) × (mapped_port value ≡ port) × (octets value transaction_id ≡ be128 ip)

xor_bytes-xor_bytes : (xs ks : List ℕ) → length xs ≤ length ks → xor_bytes (xor_bytes xs ks) ks ≡ xs
unfolding xor_bytes
xor_bytes-xor_bytes [] ks h = refl
xor_bytes-xor_bytes (x ∷ xs) [] h = absurd (omega arith)
xor_bytes-xor_bytes (x ∷ xs) (k ∷ ks) h =
    ap (λ y. y ∷ xor_bytes (xor_bytes xs ks) ks) (bit_xor-bit_xor x k)
    ∙ ap (λ ys. x ∷ ys) (xor_bytes-xor_bytes xs ks (omega arith))

port-read :
    (a b : ℕ) (rest : List ℕ) (port : ℕ)
    → port < 65536
    → mapped_port (a ∷ b ∷ (be16 (bit_xor port 0x2112) ++ rest)) ≡ port
port-read a b rest port h =
    let small = bit_xor-bounded 16 port 0x2112 (omega arith) (omega arith) in
    let whole : read16 (a ∷ b ∷ (be16 (bit_xor port 0x2112) ++ rest)) 2 ≡ bit_xor port 0x2112 =
      omega (arith, small) in
    ap (λ w. bit_xor w 0x2112) whole ∙ bit_xor-bit_xor port 0x2112

pub encode_xor_mapped_address-Reads :
    (addr : SocketAddr) (transaction_id : List ℕ)
    → port_of addr < 65536
    → length transaction_id ≡ 12
    → Reads addr (encode_xor_mapped_address addr transaction_id) transaction_id
unfolding encode_xor_mapped_address xor_bytes
encode_xor_mapped_address-Reads (v4 ip port) tid hp ht = (
  refl,
  port-read 0 1 (xor_bytes (be32 ip) (be32 magic_cookie)) port hp,
  xor_bytes-xor_bytes (be32 ip) (be32 magic_cookie ++ tid) (omega arith),
)
encode_xor_mapped_address-Reads (v6 ip port flowinfo scope_id) tid hp ht = (
  refl,
  port-read 0 2 (xor_bytes (be128 ip) (be32 magic_cookie ++ tid)) port hp,
  xor_bytes-xor_bytes (be128 ip) (be32 magic_cookie ++ tid) (omega arith),
)
