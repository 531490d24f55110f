-- ===== src/RtpStats/Reported.antt =====
-- What a reception report of pkg/buffer/rtpstats.go says.
use go_ortc.Base.{
  ℕ, ◌≤◌, ◌≡◌, refl, subst, not, ◌||◌, ◌&&◌, Option, none, some, ltb, ◌==◌, if_both, arith,
}
use go_ortc.Base.Words.{add32, sub32}
use go_ortc.RtpStats.Types.{RtpStats, Snapshot, Float64, ReceptionReport}
use go_ortc.RtpStats.Update.{is_zero}
use go_ortc.RtpStats.Snapshots.{
  num_sequence_numbers, get_ext_highest_sn_adjusted, snapshot_now, get_and_reset_snapshot,
}
use go_ortc.RtpStats.Reports.{
  SenderReportData, ReportFloats, frac_lost, report_lost, report_between, report_of,
  snapshot_rtcp_reception_report,
}

-- What a report says, for the state at the call.
pub record Reported {J : Type 0} (r : RtpStats J) (ssrc proxy_frac_lost : ℕ)
    (report : ReceptionReport) : Type 0 where
  pub same_ssrc : report.ssrc ≡ ssrc
  pub one_past_highest : report.last_sequence_number ≡ add32 (get_ext_highest_sn_adjusted r) 1
  pub at_least_proxy : proxy_frac_lost ≤ report.fraction_lost
  pub total : report.total_lost ≡ r.packets_lost

abbrev ReportedBy :
    {J : Type 0} → RtpStats J → (ssrc proxy_frac_lost : ℕ) → Option ReceptionReport → Type 0
ReportedBy r ssrc proxy_frac_lost none = Unit {0}
ReportedBy r ssrc proxy_frac_lost (some report) = Reported r ssrc proxy_frac_lost report

module _ {J F : Type 0} ⦃f : Float64 J⦄ (g : ReportFloats J F) where
  proxy-frac_lost : (lost expected proxy : ℕ) → proxy ≤ frac_lost g lost expected proxy
  proxy-frac_lost lost expected proxy =
      let own =
        g.to_uint8 (g.mul (g.div (g.of_uint32 lost) (g.of_uint32 expected)) (g.of_uint32 256)) in
      if_both (λ (n : ℕ). proxy ≤ n) (ltb own proxy) (λ _. omega arith) (λ e. ground arith)

  report_between-ReportedBy :
      (r r' : RtpStats J) (sr : Option SenderReportData) (ssrc proxy now : ℕ) (before : Snapshot J)
      → r'.packets_lost ≡ r.packets_lost
      → ReportedBy r ssrc proxy (report_between g r' sr ssrc proxy now before (snapshot_now r now))
  unfolding report_between snapshot_now
  report_between-ReportedBy r r' sr ssrc proxy now before lost =
      let expected = sub32 (snapshot_now r now).ext_start_sn before.ext_start_sn in
      if_both (ReportedBy r ssrc proxy) (ltb num_sequence_numbers expected) (λ _. tt)
        (λ _.
          if_both (ReportedBy r ssrc proxy) (expected == 0) (λ _. tt)
            (λ _. record {
              same_ssrc = refl;
              one_past_highest = refl;
              at_least_proxy =
                  proxy-frac_lost (report_lost g r' before (snapshot_now r now)) expected proxy;
              total = lost;
            }))

  snapshot-ReportedBy :
      (r : RtpStats J) (sr : Option SenderReportData) (ssrc proxy id now : ℕ)
      → ReportedBy r ssrc proxy (snapshot_rtcp_reception_report g r sr ssrc proxy id now).1
  unfolding snapshot_rtcp_reception_report get_and_reset_snapshot
  snapshot-ReportedBy r sr ssrc proxy id now =
      if_both
        (λ (q : RtpStats J × Option (Snapshot J × Snapshot J)).
          ReportedBy r ssrc proxy (report_of g sr ssrc proxy now q).1)
        (not r.initialized || r.params.is_receiver_report_driven && is_zero r.last_rr_time)
        (λ _. tt) (λ _. report_between-ReportedBy r _ sr ssrc proxy now _ refl)

  -- A reception report has a loss fraction of at least the one passed on from the subscribers, the
  -- total of the lost packets, and as its last sequence number the one after the highest that has
  -- arrived.
  pub snapshot_rtcp_reception_report-Reported :
      (r r' : RtpStats J) (sr : Option SenderReportData) (ssrc proxy id now : ℕ)
      (report : ReceptionReport)
      → snapshot_rtcp_reception_report g r sr ssrc proxy id now ≡ (r', some report)
      → Reported r ssrc proxy report
  snapshot_rtcp_reception_report-Reported r r' sr ssrc proxy id now report made =
      subst (λ (q : RtpStats J × Option ReceptionReport). ReportedBy r ssrc proxy q.1) made
        (snapshot-ReportedBy r sr ssrc proxy id now)
