-- ===== src/Twcc.antt =====
-- src/transport/udp/twcc.rs: the congestion feedback to a publisher: the transport-wide sequence
-- number of a packet (`parse_twcc_seq`) and the recorder of arrival times (`TwccRecorder`). The
-- feedback packet is in Feedback. Instants are nanoseconds of a monotonic clock. The walk over the
-- header extensions runs on fuel; every element takes a byte at least, so the length of the packet
-- is enough.
pub mod Feedback
pub mod Chunks
pub mod Recorder
pub mod Size
pub mod Reports
mod Tests
use oxlens_sfu_server.Prelude.{
  ℕ, zero, suc, ◌+◌, ◌-◌, ◌*◌, ◌/◌, ◌%◌, Bool, true, false, not, ◌&&◌, Option, none, some, List, [],
  ◌∷◌, ltb, leb, ◌==◌, if◌then◌else◌, length, get_elem?, set, replicate, byte_at, read16, add16,
  sub16,
}

-- The elements of the one-byte form, from `pos` up to `stop`.
unfoldable pub find_element : ℕ → List ℕ → (extmap_id pos stop : ℕ) → Option ℕ
find_element zero buf extmap_id pos stop = none
find_element (suc fuel) buf extmap_id pos stop =
    let byte = byte_at buf pos in
    let len = byte % 16 + 1 in
    let behind_padding = find_element fuel buf extmap_id (pos + 1) stop in
    let behind_element = find_element fuel buf extmap_id (pos + 1 + len) stop in
    if leb stop pos
    then none
    else if byte == 0
    then behind_padding
    else if byte / 16 == 15
    then none
    else if ltb stop (pos + 1 + len)
    then none
    else if byte / 16 == extmap_id && leb 2 len
    then some (read16 buf (pos + 1))
    else behind_element

unfoldable pub parse_twcc_seq : List ℕ → ℕ → Option ℕ
parse_twcc_seq buf extmap_id =
    let ext_offset = 12 + byte_at buf 0 % 16 * 4 in
    let ext_data_start = ext_offset + 4 in
    let ext_data_end = ext_data_start + read16 buf (ext_offset + 2) * 4 in
    if ltb (length buf) 12
    then none
    else if byte_at buf 0 / 16 % 2 == 0
    then none
    else if ltb (length buf) (ext_offset + 4)
    then none
    else if not (read16 buf ext_offset == 0xbede)
    then none
    else if ltb (length buf) ext_data_end
    then none
    else find_element (length buf) buf extmap_id ext_data_start ext_data_end

-- `TWCC_RECORDER_CAPACITY`
abbrev pub recorder_capacity : ℕ
recorder_capacity = 8192

pub record ArrivalEntry : Type 0 where
  pub twcc_seq : ℕ
  pub arrival : ℕ

pub record TwccRecorder : Type 0 where
  pub arrivals : List (Option ArrivalEntry)
  pub pending_base_seq : ℕ
  pub max_seq : ℕ
  pub started : Bool
  pub count : ℕ
  pub base_time : Option ℕ
  pub fb_pkt_count : ℕ

unfoldable pub new : TwccRecorder
new = record {
  arrivals = replicate recorder_capacity none;
  pending_base_seq = 0;
  max_seq = 0;
  started = false;
  count = 0;
  base_time = none;
  fb_pkt_count = 0;
}

-- `record`. The count has 64 bits.
unfoldable pub note_arrival : TwccRecorder → (twcc_seq arrival : ℕ) → TwccRecorder
note_arrival r twcc_seq arrival =
    let entry : ArrivalEntry = record { twcc_seq = twcc_seq; arrival = arrival } in
    let noted = record r {
      arrivals = set r.arrivals (twcc_seq % recorder_capacity) (some entry);
      count = r.count + 1;
    } in
    let diff = sub16 twcc_seq r.max_seq in
    if not r.started
    then record noted {
      started = true;
      pending_base_seq = twcc_seq;
      max_seq = twcc_seq;
      base_time = some arrival;
    }
    else if ltb 0 diff && ltb diff 0x8000
    then record noted { max_seq = twcc_seq }
    else noted

abbrev pub same_seq : ℕ → ArrivalEntry → Option ArrivalEntry
same_seq twcc_seq e = if e.twcc_seq == twcc_seq then some e else none

abbrev pub in_slot : ℕ → Option (Option ArrivalEntry) → Option ArrivalEntry
in_slot twcc_seq none = none
in_slot twcc_seq (some none) = none
in_slot twcc_seq (some (some e)) = same_seq twcc_seq e

unfoldable pub get : TwccRecorder → ℕ → Option ArrivalEntry
get r twcc_seq = in_slot twcc_seq (get_elem? r.arrivals (twcc_seq % recorder_capacity))

unfoldable pub advance_base : TwccRecorder → ℕ → TwccRecorder
advance_base r new_base = record r { pending_base_seq = new_base }

unfoldable pub pending_count : TwccRecorder → ℕ
pending_count r = if not r.started then 0 else add16 (sub16 r.max_seq r.pending_base_seq) 1
