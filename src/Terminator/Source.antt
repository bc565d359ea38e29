-- ===== src/Terminator/Source.antt =====
-- src/transport/udp/rtcp_terminator.rs: the sending statistics of a stream (`SendStats`) and the sender
-- report that is built from them (`build_sender_report`). The monotonic clock is in nanoseconds; the
-- wall clock is given in seconds and nanoseconds since 1970.
use oxlens_sfu_server.Prelude.{
  ℕ, ◌+◌, ◌-◌, ◌*◌, ◌/◌, ◌%◌, ◌^◌, ◌<◌, ◌≡◌, refl, Option, none, some, List, ◌∷◌, ◌++◌, arith,
  length, read32, be16, be32, add32, u32_mod, from_be32-be32,
}
use oxlens_sfu_server.Terminator.Sender.{parse_sr_ntp}

pub record SendStats : Type 0 where
  pub ssrc : ℕ
  pub packets_sent : ℕ
  pub bytes_sent : ℕ
  pub last_rtp_ts : ℕ
  pub last_send_time : Option ℕ
  pub clock_rate : ℕ

unfoldable pub new : (ssrc clock_rate : ℕ) → SendStats
new ssrc clock_rate = record {
  ssrc = ssrc;
  packets_sent = 0;
  bytes_sent = 0;
  last_rtp_ts = 0;
  last_send_time = none;
  clock_rate = clock_rate;
}

unfoldable pub on_rtp_sent : SendStats → (rtp_ts payload_len now : ℕ) → SendStats
on_rtp_sent s rtp_ts payload_len now = record s {
  packets_sent = add32 s.packets_sent 1;
  bytes_sent = add32 s.bytes_sent (payload_len % u32_mod);
  last_rtp_ts = rtp_ts;
  last_send_time = some now;
}

-- The seconds since 1900 and the fraction.
unfoldable pub wallclock_to_ntp : (secs nanos : ℕ) → ℕ × ℕ
wallclock_to_ntp secs nanos = ((secs + 2208988800) % u32_mod, nanos * 2 ^ 32 / 1000000000 % u32_mod)

-- The time of the last packet, moved on by the time that has passed since.
abbrev pub report_ts : SendStats → Option ℕ → ℕ → ℕ
report_ts s none now = 0
report_ts s (some t) now =
    add32 s.last_rtp_ts ((now - t) / 1000000 % u32_mod * s.clock_rate % u32_mod / 1000)

unfoldable pub build_sender_report : SendStats → (now secs nanos : ℕ) → List ℕ
build_sender_report s now secs nanos =
    let (ntp_hi, ntp_lo) = wallclock_to_ntp secs nanos in
    0x80
    ∷ 200
    ∷ (be16 6
        ++ (be32 s.ssrc
            ++ (be32 ntp_hi
                ++ (be32 ntp_lo
                    ++ (be32 (report_ts s s.last_send_time now)
                        ++ (be32 s.packets_sent ++ be32 s.bytes_sent))))))

report_ts-lt : (s : SendStats) (sent : Option ℕ) (now : ℕ) → report_ts s sent now < u32_mod
report_ts-lt s none now = omega arith
report_ts-lt s (some t) now = omega arith

-- Where the SSRC and the counts have 32 bits, a sender report is 28 bytes; it is read back with the
-- stream's SSRC and the NTP time of the wall clock, and carries behind them the time in the
-- stream's own units and the two counts.
parse-build_sender_report :
    (s : SendStats) (now secs nanos : ℕ)
    → s.ssrc < u32_mod
    → s.packets_sent < u32_mod
    → s.bytes_sent < u32_mod
    → let sr = build_sender_report s now secs nanos in
      let (ntp_hi, ntp_lo) = wallclock_to_ntp secs nanos in
      (length sr ≡ 28)
      × (parse_sr_ntp sr ≡ some (s.ssrc, ntp_hi, ntp_lo))
      × (read32 sr 16 ≡ report_ts s s.last_send_time now)
      × (read32 sr 20 ≡ s.packets_sent)
      × (read32 sr 24 ≡ s.bytes_sent)
unfolding build_sender_report parse_sr_ntp wallclock_to_ntp
parse-build_sender_report s now secs nanos hs hp hb =
    let ts = report_ts-lt s s.last_send_time now in
    (
      refl,
      ground arith,
      from_be32-be32 (report_ts s s.last_send_time now) ts,
      omega arith,
      omega arith,
    )
