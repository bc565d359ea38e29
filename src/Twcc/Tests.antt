-- ===== src/Twcc/Tests.antt =====
-- Runs of the recorder and of the feedback of src/transport/udp/twcc.rs, and the theorems at concrete
-- inputs.
use oxlens_sfu_server.Prelude.{
  ◌≢◌, ◌<◌, add16, ℕ, ◌+◌, ◌*◌, ◌≡◌, refl, true, Option, none, some, List, [], ◌∷◌, arith, length,
  length-replicate, take, read16,
}
use oxlens_sfu_server.Twcc.{
  note_arrival, advance_base, ArrivalEntry, TwccRecorder, recorder_capacity, find_element,
  parse_twcc_seq, new, get, pending_count,
}
use oxlens_sfu_server.Twcc.Feedback.{
  not_received, small_delta, large_delta, encode_status_chunks, encode_recv_deltas, arrivals_from,
  statuses_from, deltas_from, first_of, chunk_bytes, feedback_packet, report, build_twcc_feedback,
}
use oxlens_sfu_server.Twcc.Chunks.{decode_chunks, decode-encode_status_chunks}
use oxlens_sfu_server.Twcc.Recorder.{IsWhole}
use oxlens_sfu_server.Twcc.Reports.{base_of, note_all, build_twcc_feedback-follows}
use oxlens_sfu_server.Twcc.Size.{declared_padding, feedback_packet-Size}

-- A padding byte, an element of id 1, and the number 0x0102 as the element of id 6.
found :
    parse_twcc_seq
      (0x90 ∷ 96 ∷ 0 ∷ 1 ∷ 0 ∷ 0 ∷ 0 ∷ 0 ∷ 0 ∷ 0 ∷ 0 ∷ 9 ∷ 0xbe ∷ 0xde ∷ 0 ∷ 2 ∷ 0 ∷ 0x10 ∷ 7 ∷ 0x61
        ∷ 1 ∷ 2 ∷ 0 ∷ 0 ∷ 0xaa ∷ [])
      6
    ≡ some 0x0102
unfolding parse_twcc_seq find_element
found = refl

new-IsWhole : IsWhole new
unfolding new
new-IsWhole = length-replicate {A = Option ArrivalEntry} recorder_capacity none

decode-encode_status_chunks_example :
    take 3 (decode_chunks (encode_status_chunks (small_delta ∷ not_received ∷ large_delta ∷ [])))
    ≡ 1 ∷ 0 ∷ 2 ∷ []
decode-encode_status_chunks_example =
    decode-encode_status_chunks (small_delta ∷ not_received ∷ large_delta ∷ [])

-- Packets 0 and 2 have come, the second 70 ms after the first.
abbrev two_arrived : TwccRecorder
two_arrived = record {
  arrivals =
      some (record { twcc_seq = 0; arrival = 1000000 })
      ∷ none
      ∷ some (record { twcc_seq = 2; arrival = 71000000 })
      ∷ none
      ∷ [];
  pending_base_seq = 0;
  max_seq = 2;
  started = true;
  count = 2;
  base_time = some 1000000;
  fb_pkt_count = 0;
}

-- Chunk 0xd200 and the deltas 0 and 280 ticks. Behind the five bytes stand three of declared
-- padding, and four more.
abbrev feedback : List ℕ
feedback =
    0xaf ∷ 205 ∷ 0 ∷ 7 ∷ 0 ∷ 0 ∷ 0 ∷ 1 ∷ 0 ∷ 0 ∷ 0 ∷ 9 ∷ 0 ∷ 0 ∷ 0 ∷ 3 ∷ 0 ∷ 0 ∷ 0 ∷ 0 ∷ 0xd2 ∷ 0
    ∷ 0 ∷ 1 ∷ 24 ∷ 0 ∷ 0 ∷ 0 ∷ 0 ∷ 0 ∷ 0 ∷ 3 ∷ []

built : (build_twcc_feedback two_arrived 9).1 ≡ some feedback
unfolding build_twcc_feedback pending_count arrivals_from get first_of report statuses_from
    deltas_from encode_status_chunks encode_recv_deltas chunk_bytes feedback_packet
built = refl

-- Then packet 3 comes.
abbrev one_more : TwccRecorder
one_more = note_all (build_twcc_feedback two_arrived 9).0 ((3, 75000000) ∷ [])

abbrev second_feedback : List ℕ
second_feedback =
    0xaf ∷ 205 ∷ 0 ∷ 6 ∷ 0 ∷ 0 ∷ 0 ∷ 1 ∷ 0 ∷ 0 ∷ 0 ∷ 9 ∷ 0 ∷ 3 ∷ 0 ∷ 1 ∷ 0 ∷ 0 ∷ 1 ∷ 1 ∷ 0xd0 ∷ 0
    ∷ 40 ∷ 0 ∷ 0 ∷ 0 ∷ 0 ∷ 1 ∷ []

second_built : (build_twcc_feedback one_more 9).1 ≡ some second_feedback
unfolding build_twcc_feedback pending_count arrivals_from get first_of report statuses_from
    deltas_from encode_status_chunks encode_recv_deltas chunk_bytes feedback_packet note_all
    note_arrival advance_base
second_built = refl

build_twcc_feedback-follows_example :
    (base_of second_feedback ≡ 3) × ((i j : ℕ) → i < 3 → j < 1 → add16 0 i ≢ add16 3 j)
build_twcc_feedback-follows_example =
    build_twcc_feedback-follows two_arrived 9 feedback second_feedback ((3, 75000000) ∷ [])
      (omega arith) built second_built

feedback_packet-Size_example :
    let packet = feedback_packet 9 0 3 0 0 (0xd2 ∷ 0 ∷ 0 ∷ 1 ∷ 24 ∷ []) in
    ((read16 packet 2 + 1) * 4 ≡ length packet) × (length packet ≡ 25 + declared_padding packet + 4)
feedback_packet-Size_example =
    feedback_packet-Size 9 0 3 0 0 (0xd2 ∷ 0 ∷ 0 ∷ 1 ∷ 24 ∷ []) (omega arith)
