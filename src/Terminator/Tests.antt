-- ===== src/Terminator/Tests.antt =====
-- Runs of the statistics and the reports of src/transport/udp/rtcp_terminator.rs, and the theorems at
-- concrete inputs. The arithmetic of the jitter is that of whole numbers here.
use oxlens_sfu_server.Prelude.{ℕ, ◌+◌, ◌-◌, ◌/◌, ◌<◌, ◌≡◌, refl, true, List, [], ◌∷◌, arith}
use oxlens_sfu_server.Terminator.{Float64, RecvStats, new, update, build_rr_block}
use oxlens_sfu_server.Terminator.Losses.{
  Packet, Ahead, done, ahead, Tracks, update_all, first_report-losses, interval-losses,
}
use oxlens_sfu_server.Terminator.Restart.{update-misses_restart}

abbrev whole : Float64 ℕ
whole = record {
  from_nat = λ n. n;
  add = λ a b. a + b;
  minus = λ a b. a - b;
  div = λ a b. a / b;
  as_u32 = λ n. n;
}

abbrev packet : ℕ → Packet
packet seq = record { seq = seq; rtp_ts = 0; arrival_ms = 0 }

-- Numbers 65533 and 65534, then a gap of two over the end of the circle.
abbrev later : List Packet
later = packet 1 ∷ packet 2 ∷ []

later-Ahead : Ahead 65534 later 65538
later-Ahead =
    ahead 65534 3 65538 0 0 (packet 2 ∷ []) (omega arith) (omega arith)
      (ahead 65537 1 65538 0 0 [] (omega arith) (omega arith) (done 65538))

abbrev stats : RecvStats ℕ
stats = update_all whole (new whole 9 48000) (packet 65533 ∷ packet 65534 ∷ later)

first_report-losses_example :
    ((build_rr_block whole stats 0).1.extended_highest_seq ≡ 65538)
    × ((build_rr_block whole stats 0).1.cumulative_lost ≡ 2)
    × ((build_rr_block whole stats 0).1.fraction_lost ≡ 102)
first_report-losses_example =
    first_report-losses whole 9 48000 0 (packet 65533) (packet 65534) later 65538 (omega arith) refl
      later-Ahead (omega arith)

-- A stream that runs, before its first report.
abbrev running : RecvStats ℕ
unfolding new
running = record (new whole 9 48000) {
  initialized = true;
  seq_probation = 0;
  base_seq = 65530;
  max_seq = 65534;
  received = 5;
}

running-Tracks : Tracks running 65530 65534 5 0 0
unfolding new
running-Tracks = record {
  started = refl;
  passed = refl;
  first = refl;
  highest = refl;
  turns = refl;
  count = refl;
  seen_expected = refl;
  seen_received = refl;
}

interval-losses_example :
    let s = update_all whole (build_rr_block whole running 0).0 later in
    let fraction = (build_rr_block whole s 0).1.fraction_lost in (fraction ≡ 128) × (fraction < 256)
interval-losses_example =
    interval-losses whole running 65530 65534 5 0 0 0 0 later 65538 running-Tracks (omega arith)
      (omega arith) (omega arith) later-Ahead (omega arith) (omega arith) (omega arith)

-- A stream at number 5000.
abbrev middle : RecvStats ℕ
middle = record running { max_seq = 5000 }

update-misses_restart_example :
    update whole (update whole middle 65535 0 0) 0 0 0 ≡ record middle { bad_seq = 1 }
unfolding new
update-misses_restart_example =
    update-misses_restart whole middle 0 0 0 0 refl refl (omega arith) (λ e. omega (arith, e))
      (omega arith) (omega arith)
