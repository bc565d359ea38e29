-- ===== src/Terminator.antt =====
-- src/transport/udp/rtcp_terminator.rs: the reception statistics of a publisher's stream
-- (`RecvStats`), from which the server makes its receiver reports. Children: the report packet, the
-- sender reports and the laws. Instants are nanoseconds of a monotonic clock, read by the caller.
pub mod Report
pub mod Sender
pub mod Source
pub mod Losses
pub mod Restart
mod Tests
use oxlens_sfu_server.Prelude.{
  ℕ, zero, suc, ◌+◌, ◌-◌, ◌*◌, ◌/◌, ◌%◌, ◌^◌, min, Bool, true, false, not, Option, none, some, List,
  [], ◌∷◌, ltb, leb, ◌==◌, if◌then◌else◌, u16_mod, u32_mod, add16, sub16, add32, sub32,
}

-- What the jitter estimate uses of `f64`, which is not code of the repository: the conversion of a
-- whole number, the arithmetic, and the cast `as u32`.
pub record Float64 (F : Type 0) : Type 0 where
  pub from_nat : ℕ → F
  pub add : F → F → F
  pub minus : F → F → F
  pub div : F → F → F
  pub as_u32 : F → ℕ

-- An `i64`, far from its bounds.
pub data ℤ : Type 0 where
  pos : ℕ → ℤ
  negsuc : ℕ → ℤ

-- `a as i64 - b as i64`
abbrev pub minus_nat : ℕ → ℕ → ℤ
minus_nat a b = if leb b a then pos (a - b) else negsuc (b - a - 1)

abbrev pub is_zero : ℤ → Bool
is_zero (pos zero) = true
is_zero (pos (suc n)) = false
is_zero (negsuc n) = false

-- `(a - b).abs()`
abbrev pub distance : ℤ → ℤ → ℕ
distance (pos a) (pos b) = (a - b) + (b - a)
distance (pos a) (negsuc b) = a + b + 1
distance (negsuc a) (pos b) = a + 1 + b
distance (negsuc a) (negsuc b) = (a - b) + (b - a)

-- RTP_SEQ_MAX_DROPOUT, RTP_SEQ_MAX_MISORDER and RTP_SEQ_MIN_SEQUENTIAL of src/config.rs
abbrev pub max_dropout : ℕ
max_dropout = 3000

abbrev pub max_misorder : ℕ
max_misorder = 100

abbrev pub min_sequential : ℕ
min_sequential = 2

pub record RecvStats (F : Type 0) : Type 0 where
  pub ssrc : ℕ
  pub clock_rate : ℕ
  pub max_seq : ℕ
  pub cycles : ℕ
  pub base_seq : ℕ
  pub bad_seq : ℕ
  pub received : ℕ
  pub expected_prior : ℕ
  pub received_prior : ℕ
  pub jitter : F
  pub last_transit : ℤ
  pub last_sr_ntp_middle : ℕ
  pub last_sr_received_at : Option ℕ
  pub initialized : Bool
  pub seq_probation : ℕ

-- RFC 3550 report block.
pub record RrReportBlock : Type 0 where
  pub ssrc : ℕ
  pub fraction_lost : ℕ
  pub cumulative_lost : ℕ
  pub extended_highest_seq : ℕ
  pub jitter : ℕ
  pub last_sr : ℕ
  pub delay_since_last_sr : ℕ

-- In units of 1/65536 s, from nanoseconds.
abbrev pub dlsr_of : ℕ → ℕ
dlsr_of elapsed =
    add32 (elapsed / 1000000000 % u32_mod * 65536 % u32_mod)
      (elapsed % 1000000000 * 65536 / 1000000000 % u32_mod)

abbrev pub dlsr : Option ℕ → ℕ → ℕ
dlsr none now = 0
dlsr (some at) now = dlsr_of (now - at)

module _ {F : Type 0} (f : Float64 F) where
  unfoldable pub new : (ssrc clock_rate : ℕ) → RecvStats F
  new ssrc clock_rate = record {
    ssrc = ssrc;
    clock_rate = clock_rate;
    max_seq = 0;
    cycles = 0;
    base_seq = 0;
    bad_seq = 0;
    received = 0;
    expected_prior = 0;
    received_prior = 0;
    jitter = f.from_nat 0;
    last_transit = pos 0;
    last_sr_ntp_middle = 0;
    last_sr_received_at = none;
    initialized = false;
    seq_probation = min_sequential;
  }

  abbrev pub init_seq : RecvStats F → ℕ → RecvStats F
  init_seq s seq = record s {
    base_seq = seq;
    max_seq = seq;
    bad_seq = add32 seq 1;
    cycles = 0;
    received = 0;
    received_prior = 0;
    expected_prior = 0;
  }

  abbrev pub update_jitter : RecvStats F → (rtp_ts arrival_ms : ℕ) → RecvStats F
  update_jitter s rtp_ts arrival_ms =
      let transit = minus_nat (arrival_ms * s.clock_rate / 1000) rtp_ts in
      let d = f.from_nat (distance transit s.last_transit) in
      record s {
        jitter =
            if is_zero s.last_transit
            then s.jitter
            else f.add s.jitter (f.div (f.minus d s.jitter) (f.from_nat 16));
        last_transit = transit;
      }

  -- `self.received += 1; self.update_jitter(rtp_ts, arrival_ms)`
  abbrev pub counted : RecvStats F → (rtp_ts arrival_ms : ℕ) → RecvStats F
  counted s rtp_ts arrival_ms =
      update_jitter (record s { received = add32 s.received 1 }) rtp_ts arrival_ms

  -- The numbers must be consecutive before the stream counts.
  abbrev pub on_probation : RecvStats F → (seq rtp_ts arrival_ms : ℕ) → RecvStats F
  on_probation s seq rtp_ts arrival_ms =
      if seq == add16 s.max_seq 1
      then if s.seq_probation - 1 == 0
        then counted
            (init_seq (record s { seq_probation = s.seq_probation - 1; max_seq = seq }) seq) rtp_ts
            arrival_ms
        else record s {
          seq_probation = s.seq_probation - 1;
          max_seq = seq;
          received = add32 s.received 1;
        }
      else record s {
        seq_probation = min_sequential - 1;
        max_seq = seq;
        received = add32 s.received 1;
      }

  abbrev pub settled : RecvStats F → (seq rtp_ts arrival_ms : ℕ) → RecvStats F
  settled s seq rtp_ts arrival_ms =
      let udelta = sub16 seq s.max_seq in
      if ltb udelta max_dropout
      then counted
          (record s {
            cycles = if ltb seq s.max_seq then add32 s.cycles 65536 else s.cycles;
            max_seq = seq;
          })
          rtp_ts arrival_ms
      else if leb udelta (65535 - max_misorder)
      then if seq == s.bad_seq
        then counted (init_seq s seq) rtp_ts arrival_ms
        else record s { bad_seq = add32 seq 1 }
      else counted s rtp_ts arrival_ms

  unfoldable pub update : RecvStats F → (seq rtp_ts arrival_ms : ℕ) → RecvStats F
  update s seq rtp_ts arrival_ms =
      if not s.initialized
      then counted
          (record (init_seq s seq) { initialized = true; seq_probation = min_sequential - 1 })
          rtp_ts arrival_ms
      else if ltb 0 s.seq_probation
      then on_probation s seq rtp_ts arrival_ms
      else settled s seq rtp_ts arrival_ms

  unfoldable pub on_sr_received : RecvStats F → (ntp_ts_hi ntp_ts_lo now : ℕ) → RecvStats F
  on_sr_received s ntp_ts_hi ntp_ts_lo now = record s {
    last_sr_ntp_middle = ntp_ts_hi % 65536 * 65536 + ntp_ts_lo / 65536;
    last_sr_received_at = some now;
  }

  -- The subtractions of the source are guarded, and stop at 0 here.
  unfoldable pub build_rr_block : RecvStats F → (now : ℕ) → RecvStats F × RrReportBlock
  build_rr_block s now =
      let extended_max = add32 s.cycles s.max_seq in
      let expected = add32 (sub32 extended_max s.base_seq) 1 in
      let expected_interval = sub32 expected s.expected_prior in
      let lost_interval = expected_interval - sub32 s.received s.received_prior in
      (
        record s { expected_prior = expected; received_prior = s.received },
        record {
          ssrc = s.ssrc;
          fraction_lost =
              if ltb 0 expected_interval then lost_interval * 256 / expected_interval % 256 else 0;
          cumulative_lost = min (expected - s.received) 0x7fffff;
          extended_highest_seq = extended_max;
          jitter = f.as_u32 s.jitter;
          last_sr = s.last_sr_ntp_middle;
          delay_since_last_sr = dlsr s.last_sr_received_at now;
        },
      )
