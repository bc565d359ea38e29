-- ===== src/Twcc/Feedback.antt =====
-- src/transport/udp/twcc.rs: the feedback packet (`build_twcc_feedback`, `encode_status_chunks`,
-- `encode_recv_deltas`). The log lines are left out.
use oxlens_sfu_server.Prelude.{
  ℕ, zero, suc, ◌+◌, ◌-◌, ◌*◌, ◌/◌, ◌%◌, ◌^◌, min, not, ◌||◌, Option, none, some, List, [], ◌∷◌,
  ◌++◌, ltb, leb, ◌==◌, if◌then◌else◌, length, replicate, set, be16, be32, add16, sub16,
}
use oxlens_sfu_server.Terminator.{ℤ, pos, negsuc}
use oxlens_sfu_server.Twcc.{TwccRecorder, recorder_capacity, get, advance_base, pending_count}

pub data PacketStatus : Type 0 where
  not_received : PacketStatus
  small_delta : PacketStatus
  large_delta : PacketStatus

-- `status as u16`
abbrev pub code : PacketStatus → ℕ
code not_received = 0
code small_delta = 1
code large_delta = 2

abbrev pub chunk : (a b c d e f g : PacketStatus) → ℕ
chunk a b c d e f g =
    0xc000
    + code a * 4096
    + code b * 1024
    + code c * 256
    + code d * 64
    + code e * 16
    + code f * 4
    + code g

-- Seven statuses in a chunk; the last chunk is filled up with packets not received.
unfoldable pub encode_status_chunks : List PacketStatus → List ℕ
encode_status_chunks [] = []
encode_status_chunks (a ∷ []) =
    chunk a not_received not_received not_received not_received not_received not_received ∷ []
encode_status_chunks (a ∷ b ∷ []) =
    chunk a b not_received not_received not_received not_received not_received ∷ []
encode_status_chunks (a ∷ b ∷ c ∷ []) =
    chunk a b c not_received not_received not_received not_received ∷ []
encode_status_chunks (a ∷ b ∷ c ∷ d ∷ []) =
    chunk a b c d not_received not_received not_received ∷ []
encode_status_chunks (a ∷ b ∷ c ∷ d ∷ e ∷ []) = chunk a b c d e not_received not_received ∷ []
encode_status_chunks (a ∷ b ∷ c ∷ d ∷ e ∷ f ∷ []) = chunk a b c d e f not_received ∷ []
encode_status_chunks (a ∷ b ∷ c ∷ d ∷ e ∷ f ∷ g ∷ rest) =
    chunk a b c d e f g ∷ encode_status_chunks rest

-- `d.clamp(0, 255) as u8`
abbrev pub small_byte : ℤ → ℕ
small_byte (pos n) = min n 255
small_byte (negsuc n) = 0

-- `(d.clamp(-8192, 8191) as i16).to_be_bytes()`
abbrev pub large_bytes : ℤ → List ℕ
large_bytes (pos n) = be16 (min n 8191)
large_bytes (negsuc n) = be16 (65535 - min n 8191)

unfoldable pub encode_recv_deltas : List PacketStatus → List ℤ → List ℕ
encode_recv_deltas [] deltas = []
encode_recv_deltas (not_received ∷ ss) deltas = encode_recv_deltas ss deltas
encode_recv_deltas (small_delta ∷ ss) [] = encode_recv_deltas ss []
encode_recv_deltas (small_delta ∷ ss) (d ∷ ds) = small_byte d ∷ encode_recv_deltas ss ds
encode_recv_deltas (large_delta ∷ ss) [] = encode_recv_deltas ss []
encode_recv_deltas (large_delta ∷ ss) (d ∷ ds) = large_bytes d ++ encode_recv_deltas ss ds

-- In units of 250 µs, from nanoseconds.
abbrev pub ticks : ℕ → ℕ
ticks elapsed = elapsed / 1000 / 250

abbrev pub negative : ℕ → ℤ
negative zero = pos 0
negative (suc n) = negsuc n

-- The first packet's delta is against the reference time, the others' against the packet before.
abbrev pub delta_of : (base_time : ℕ) → Option ℕ → ℕ → ℤ
delta_of base_time none arrival =
    pos (ticks (arrival - base_time) - ticks (arrival - base_time) / 256 * 256)
delta_of base_time (some prev) arrival =
    if leb prev arrival then pos (ticks (arrival - prev)) else negative (ticks (prev - arrival))

abbrev pub status_of : ℤ → PacketStatus
status_of (pos n) = if leb n 255 then small_delta else large_delta
status_of (negsuc n) = large_delta

-- The arrivals of `n` packets from number `seq` on.
unfoldable pub arrivals_from : ℕ → TwccRecorder → ℕ → List (Option ℕ)
arrivals_from zero r seq = []
arrivals_from (suc n) r seq =
    elim (get r seq) [ none ↦ none | some e ↦ some e.arrival ] ∷ arrivals_from n r (add16 seq 1)

unfoldable pub statuses_from : (base_time : ℕ) → Option ℕ → List (Option ℕ) → List PacketStatus
statuses_from base_time prev [] = []
statuses_from base_time prev (none ∷ rest) = not_received ∷ statuses_from base_time prev rest
statuses_from base_time prev (some a ∷ rest) =
    status_of (delta_of base_time prev a) ∷ statuses_from base_time (some a) rest

unfoldable pub deltas_from : (base_time : ℕ) → Option ℕ → List (Option ℕ) → List ℤ
deltas_from base_time prev [] = []
deltas_from base_time prev (none ∷ rest) = deltas_from base_time prev rest
deltas_from base_time prev (some a ∷ rest) =
    delta_of base_time prev a ∷ deltas_from base_time (some a) rest

unfoldable pub first_of : List (Option ℕ) → Option ℕ
first_of [] = none
first_of (none ∷ rest) = first_of rest
first_of (some a ∷ rest) = some a

unfoldable pub chunk_bytes : List ℕ → List ℕ
chunk_bytes [] = []
chunk_bytes (c ∷ cs) = be16 c ++ chunk_bytes cs

-- `body_len`, `padded_body` and `total_len - (4 + body_len)`, for `size` bytes of chunks and deltas.
abbrev pub body_len : ℕ → ℕ
body_len size = 12 + (8 + size)

abbrev pub padded_body : ℕ → ℕ
padded_body size = (body_len size + 3) / 4 * 4

abbrev pub pad_count : ℕ → ℕ
pad_count size = padded_body size - body_len size

-- What precedes the padding.
abbrev pub unpadded : (media_ssrc base_seq count reference_time fb : ℕ) → List ℕ → List ℕ
unpadded media_ssrc base_seq count reference_time fb body =
    (if ltb (body_len (length body)) (padded_body (length body)) then 0xaf else 0x8f)
    ∷ 205
    ∷ (be16 (padded_body (length body) / 4)
        ++ (be32 1
            ++ (be32 media_ssrc
                ++ (be16 base_seq
                    ++ (be16 count
                        ++ (reference_time / 65536 % 256
                            ∷ reference_time / 256 % 256
                            ∷ reference_time % 256
                            ∷ fb
                            ∷ body))))))

unfoldable pub feedback_packet : (media_ssrc base_seq count reference_time fb : ℕ) → List ℕ → List ℕ
feedback_packet media_ssrc base_seq count reference_time fb body =
    let buf = unpadded media_ssrc base_seq count reference_time fb body in
    let total_len = 4 + padded_body (length body) in
    let filled = buf ++ replicate (total_len - length buf) 0 in
    if ltb (body_len (length body)) (padded_body (length body))
    then set filled (length filled - 1) (pad_count (length body))
    else filled

-- The steps from the arrivals on; `first` is the first of them.
unfoldable pub report : TwccRecorder → (media_ssrc base_time first : ℕ) → List (Option ℕ) → List ℕ
report r media_ssrc base_time first arrivals =
    let statuses = statuses_from base_time none arrivals in
    feedback_packet media_ssrc r.pending_base_seq (pending_count r)
      (ticks (first - base_time) / 256 % 2 ^ 24) r.fb_pkt_count
      (chunk_bytes (encode_status_chunks statuses)
        ++ encode_recv_deltas statuses (deltas_from base_time none arrivals))

-- The recorder behind a report.
abbrev pub reported : TwccRecorder → TwccRecorder
reported r =
    advance_base (record r { fb_pkt_count = (r.fb_pkt_count + 1) % 256 })
      (add16 r.pending_base_seq (pending_count r))

unfoldable pub build_twcc_feedback : TwccRecorder → ℕ → TwccRecorder × Option (List ℕ)
build_twcc_feedback r media_ssrc =
    if not r.started || pending_count r == 0 then (r, none) else elim r.base_time [
      | none ↦ (r, none)
      | some base_time ↦
          if ltb recorder_capacity (pending_count r)
          then (advance_base r (sub16 r.max_seq 100), none)
          else let arrivals = arrivals_from (pending_count r) r r.pending_base_seq in
            elim (first_of arrivals) [
              | none ↦ (r, none)
              | some first ↦ (reported r, some (report r media_ssrc base_time first arrivals))
            ]
    ]
