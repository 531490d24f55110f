-- ===== src/RtpStats/Tests.antt =====
-- Runs of the statistics of a stream, and their theorems at concrete inputs. Natural numbers stand for
-- the float64 values.
use go_ortc.Base.{
  ℕ, ◌+◌, ◌-◌, ◌*◌, ◌/◌, ◌≡◌, refl, true, false, Option, none, some, [], ◌∷◌, ltb, arith, ◌⊎◌,
}
use go_ortc.Base.Words.{add32, sub32}
use go_ortc.RtpStats.Types.{
  RtpStats, RtpStatsParams, Float64, Header, ReceptionReport, new_rtp_stats, new_snapshot,
}
use go_ortc.RtpStats.Reports.{ReportFloats, report_between, snapshot_rtcp_reception_report}
use go_ortc.RtpStats.Reported.{Reported, snapshot_rtcp_reception_report-Reported}
use go_ortc.RtpStats.Ring.{
  get_sn_info_out_of_order_ptr, set_sn_info, clear_rounds, clear_sn_infos, update_gap_histogram,
}
use go_ortc.RtpStats.Jitter.{raise_max, update_jitter}
use go_ortc.RtpStats.Update.{
  put_snapshot, in_order, resync, fill_snapshots, begin, account, count_packet, update,
}
use go_ortc.RtpStats.Counters.{stop}
use go_ortc.RtpStats.Snapshots.{
  RtpDeltaInfo, process_info, process_sn, process_rounds, get_interval_stats, find_snapshot,
  snapshot_now, get_and_reset_snapshot, delta_losses, empty_delta, full_delta, delta_between,
  delta_info, jitter_time,
}
use go_ortc.RtpStats.Tally.{InRange, total, tally}
use go_ortc.RtpStats.Count.{CrossesWrap, total-update}
use go_ortc.RtpStats.WrapStart.{total-update-crossing}
use go_ortc.RtpStats.Stopped.{packet, nack, fir, handle, handle_all, handle_all-stop}
use go_ortc.RtpStats.Interval.{Counts, get_interval_stats-Counts}
use go_ortc.RtpStats.Reachable.{created, handled, jitter_max-delta_info}

instance whole : Float64 ℕ
whole = record {
  of_int32 = λ n. n;
  of_uint32 = λ n. n;
  add = λ a b. a + b;
  sub = λ a b. a - b;
  mul = λ a b. a * b;
  div = λ a b. a / b;
  ltb = ltb;
}

abbrev params : RtpStatsParams
params = record { clock_rate = 90000; is_receiver_report_driven = false }

abbrev fresh : RtpStats ℕ
fresh = new_rtp_stats params

abbrev header_of : ℕ → Header
header_of sn = record { sequence_number = sn; timestamp = 3000; marker = true; marshal_size = 12 }

-- Packets 2 to 5 are expected, and one of them is lost.
abbrev running : RtpStats ℕ
running = record fresh {
  initialized = true;
  ext_start_sn = 2;
  highest_sn = 5;
  cycles = 0;
  packets_lost = 1;
  packets_duplicate = 0;
}

running-InRange : InRange (tally running)
running-InRange = record {
  start_u16 = omega arith;
  highest_u16 = omega arith;
  cycles_u16 = omega arith;
  lost_u32 = omega arith;
  duplicate_u32 = omega arith;
}

in_time : ¬ CrossesWrap (tally running) 9
in_time c = absurd (ground (arith, c.moves.before))

total-update_example :
    total (tally (update running (header_of 9) 100 0 7000000 1).0) ≡ add32 (total (tally running)) 1
unfolding new_rtp_stats
total-update_example =
    total-update running (header_of 9) 100 0 7000000 1 running-InRange (omega arith) refl refl refl
      in_time

crossing : CrossesWrap (tally running) 65530
crossing = record {
  moves = record { short = omega arith; before = omega arith };
  above = omega arith;
}

total-update-crossing_example :
    total (tally (update running (header_of 65530) 100 0 7000000 1).0)
    ≡ sub32 (total (tally running)) 65535
unfolding new_rtp_stats
total-update-crossing_example =
    total-update-crossing running (header_of 65530) 100 0 7000000 1 running-InRange (omega arith)
      refl refl refl crossing (omega arith)

handle_all-stop_example :
    handle_all (packet (header_of 10) 100 0 7000000 1 ∷ nack 3 ∷ fir 2 ∷ []) (stop running 9)
    ≡ stop running 9
handle_all-stop_example =
    handle_all-stop (packet (header_of 10) 100 0 7000000 1 ∷ nack 3 ∷ fir 2 ∷ []) running 9

get_interval_stats-Counts_example : Counts running 2 4 (get_interval_stats running 2 6)
get_interval_stats-Counts_example = get_interval_stats-Counts running 2 6 (omega arith)

abbrev one_packet : RtpStats ℕ
one_packet = handle (packet (header_of 10) 100 0 7000000 1) fresh

abbrev one_delta : RtpDeltaInfo ℕ
one_delta = record {
  start_time = some 1;
  end_time = some 5;
  packets = 1;
  bytes = 112;
  header_bytes = 12;
  packets_duplicate = 0;
  bytes_duplicate = 0;
  header_bytes_duplicate = 0;
  packets_padding = 0;
  bytes_padding = 0;
  header_bytes_padding = 0;
  packets_lost = 0;
  packets_missing = 0;
  frames = 1;
  rtt_max = 0;
  jitter_max = 0;
  nacks = 0;
  plis = 0;
  firs = 0;
}

run_delta : (delta_info one_packet 1 5).1 ≡ some one_delta
unfolding handle update begin resync count_packet in_order account update_jitter raise_max
    set_sn_info get_sn_info_out_of_order_ptr clear_sn_infos clear_rounds update_gap_histogram
    fill_snapshots put_snapshot new_snapshot new_rtp_stats delta_info get_and_reset_snapshot
    find_snapshot snapshot_now delta_between delta_losses full_delta empty_delta get_interval_stats
    process_rounds process_sn process_info whole
run_delta = refl

jitter_max-delta_info_example :
    (one_delta.jitter_max ≡ 0) ⊎ (one_delta.jitter_max ≡ jitter_time one_packet 0)
unfolding handle update begin resync count_packet in_order account update_jitter new_rtp_stats
    set_sn_info clear_sn_infos clear_rounds update_gap_histogram whole
jitter_max-delta_info_example =
    jitter_max-delta_info one_packet 1 5 one_delta
      (handled (created params) (packet (header_of 10) 100 0 7000000 1)) refl run_delta

abbrev floats : ReportFloats ℕ ℕ
floats = record {
  of_uint32 = λ n. n;
  div = λ a b. a / b;
  mul = λ a b. a * b;
  to_uint8 = λ n. n;
  to_uint32 = λ n. n;
}

abbrev report_run : RtpStats ℕ × Option ReceptionReport
report_run = snapshot_rtcp_reception_report floats running none 7 3 1 9000

abbrev report_or : Option ReceptionReport → ReceptionReport
report_or none = record {
  ssrc = 0;
  fraction_lost = 0;
  total_lost = 0;
  last_sequence_number = 0;
  jitter = 0;
  last_sender_report = 0;
  delay = 0;
}
report_or (some report) = report

reports : report_run ≡ (report_run.0, some (report_or report_run.1))
unfolding snapshot_rtcp_reception_report get_and_reset_snapshot find_snapshot snapshot_now
    report_between new_rtp_stats new_snapshot
reports = refl

snapshot_rtcp_reception_report-Reported_example : Reported running 7 3 (report_or report_run.1)
snapshot_rtcp_reception_report-Reported_example =
    snapshot_rtcp_reception_report-Reported floats running report_run.0 none 7 3 1 9000
      (report_or report_run.1) reports
