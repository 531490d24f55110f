-- ===== src/RtpStats/Reports.antt =====
-- `SnapshotRtcpReceptionReport` of pkg/buffer/rtpstats.go.
use go_ortc.Base.{ℕ, ◌-◌, ◌*◌, ◌/◌, ◌%◌, Option, none, some, bit_or, ltb, ◌==◌, if◌then◌else◌}
use go_ortc.Base.Words.{sub32}
use go_ortc.RtpStats.Types.{RtpStats, Snapshot, Float64, ReceptionReport}
use go_ortc.RtpStats.Snapshots.{num_sequence_numbers, get_interval_stats, get_and_reset_snapshot}

-- What the report reads of the last sender report of the peer.
pub record SenderReportData : Type 0 where
  pub ntp_timestamp : ℕ
  pub arrival_time : Option ℕ

-- The conversions and operations on float32 values `F` and float64 values `J` that a report uses.
pub record ReportFloats (J F : Type 0) : Type 0 where
  pub of_uint32 : ℕ → F
  pub div : F → F → F
  pub mul : F → F → F
  pub to_uint8 : F → ℕ
  pub to_uint32 : J → ℕ

-- The whole milliseconds from `t` to `now` as a uint32: a negative number wraps.
abbrev pub ms_between : (t now : ℕ) → ℕ
ms_between t now =
    if ltb now t
    then sub32 0 ((t - now) / 1000000 % 4294967296)
    else (now - t) / 1000000 % 4294967296

-- The delay since the last sender report, in units of 1/65536 seconds.
abbrev pub delay_since : Option SenderReportData → (now : ℕ) → ℕ
delay_since none now = 0
delay_since (some sr) now = elim sr.arrival_time [
  | none ↦ 0
  | some t ↦
      let delay_ms = ms_between t now in
      bit_or (delay_ms / 1000 * 65536 % 4294967296) (delay_ms % 1000 * 65536 / 1000)
]

abbrev pub last_sr : Option SenderReportData → ℕ
last_sr none = 0
last_sr (some sr) = sr.ntp_timestamp / 65536 % 4294967296

module _ {J F : Type 0} ⦃f : Float64 J⦄ (g : ReportFloats J F) where
  -- The packets lost; a negative 32-bit difference counts as none.
  abbrev pub report_lost : RtpStats J → (before after : Snapshot J) → ℕ
  report_lost r before after =
      let overridden = sub32 after.packets_lost_overridden before.packets_lost_overridden in
      let stats = get_interval_stats r (before.ext_start_sn % 65536) (after.ext_start_sn % 65536) in
      if r.params.is_receiver_report_driven
      then if ltb 2147483647 overridden then 0 else overridden
      else stats.0.packets_lost

  abbrev pub frac_lost : (lost expected proxy_frac_lost : ℕ) → ℕ
  frac_lost lost expected proxy_frac_lost =
      let own =
        g.to_uint8 (g.mul (g.div (g.of_uint32 lost) (g.of_uint32 expected)) (g.of_uint32 256)) in
      if ltb own proxy_frac_lost then proxy_frac_lost else own

  -- The report on the interval between two snapshots.
  unfoldable pub report_between :
      RtpStats J
      → Option SenderReportData
      → (ssrc proxy_frac_lost now : ℕ) → (before after : Snapshot J) → Option ReceptionReport
  report_between r sr ssrc proxy_frac_lost now before after =
      let expected = sub32 after.ext_start_sn before.ext_start_sn in
      if ltb num_sequence_numbers expected
      then none
      else if expected == 0
      then none
      else some (record {
        ssrc = ssrc;
        fraction_lost = frac_lost (report_lost r before after) expected proxy_frac_lost;
        total_lost = r.packets_lost;
        last_sequence_number = after.ext_start_sn;
        jitter =
            g.to_uint32
              (if r.params.is_receiver_report_driven then r.jitter_overridden else r.jitter);
        last_sender_report = last_sr sr;
        delay = delay_since sr now;
      })

  abbrev pub report_of :
      Option SenderReportData
      → (ssrc proxy_frac_lost now : ℕ) → RtpStats J × Option (Snapshot J × Snapshot J)
      → RtpStats J × Option ReceptionReport
  report_of sr ssrc proxy_frac_lost now (r, none) = (r, none)
  report_of sr ssrc proxy_frac_lost now (r, some (before, after)) =
      (r, report_between r sr ssrc proxy_frac_lost now before after)

  unfoldable pub snapshot_rtcp_reception_report :
      RtpStats J
      → Option SenderReportData
      → (ssrc proxy_frac_lost id now : ℕ) → RtpStats J × Option ReceptionReport
  snapshot_rtcp_reception_report r sr ssrc proxy_frac_lost id now =
      report_of sr ssrc proxy_frac_lost now (get_and_reset_snapshot r id now)
