-- ===== src/RtpStats/Reachable.antt =====
-- The states that the methods of pkg/buffer/rtpstats.go make from a new object, and the jitter that
-- `DeltaInfo` reports in them.
use go_ortc.Base.{
  ℕ, ◌≡◌, sym, ap, ◌∙◌, false, not, ◌&&◌, ◌||◌, Option, some, if_both, if◌then◌else◌, ◌⊎◌, inl, inr,
  ◌==◌, ltb,
}
use go_ortc.Base.Words.{sub32}
use go_ortc.RtpStats.Types.{RtpStats, RtpStatsParams, Float64, Snapshot, new_rtp_stats}
use go_ortc.RtpStats.Update.{is_zero}
use go_ortc.RtpStats.Counters.{stop, resync_on_next_packet, new_snapshot_id, seed}
use go_ortc.RtpStats.Snapshots.{
  RtpDeltaInfo, find_snapshot, or_start, get_and_reset_snapshot, delta_between, delta_of,
  delta_info, empty_delta, full_delta, jitter_time, num_sequence_numbers,
}
use go_ortc.RtpStats.Stopped.{Event, handle}
use go_ortc.RtpStats.Quiet.{IsQuiet, no_snapshot, find_snapshot-Quiet}
use go_ortc.RtpStats.Count.{unsome}
use go_ortc.RtpStats.MaxJitter.{
  handle-Quiet, get_and_reset_snapshot-Quiet, new_snapshot_id-Quiet, seed-Quiet,
}

module _ {J : Type 0} ⦃f : Float64 J⦄ where
  -- The states that the methods make from a new object.
  pub data Reachable : RtpStats J → Type 0 where
    created : (params : RtpStatsParams) → Reachable (new_rtp_stats params)
    handled : {r : RtpStats J} → Reachable r → (e : Event) → Reachable (handle e r)
    stopped : {r : RtpStats J} → Reachable r → (now : ℕ) → Reachable (stop r now)
    resynced : {r : RtpStats J} → Reachable r → Reachable (resync_on_next_packet r)
    given_id : {r : RtpStats J} → Reachable r → (now : ℕ) → Reachable (new_snapshot_id r now).0
    reset_at :
        {r : RtpStats J}
        → Reachable r
        → (id now : ℕ) → Reachable (get_and_reset_snapshot r id now).0
    seeded : {r from : RtpStats J} → Reachable r → Reachable from → Reachable (seed r (some from))

  Reachable-Quiet : {r : RtpStats J} → Reachable r → IsQuiet r
  unfolding new_rtp_stats
  Reachable-Quiet (created params) = no_snapshot
  Reachable-Quiet (handled a e) = handle-Quiet e _ (Reachable-Quiet a)
  Reachable-Quiet (stopped a now) = Reachable-Quiet a
  Reachable-Quiet (resynced a) = Reachable-Quiet a
  Reachable-Quiet (given_id a now) = new_snapshot_id-Quiet _ now (Reachable-Quiet a)
  Reachable-Quiet (reset_at a id now) = get_and_reset_snapshot-Quiet _ id now (Reachable-Quiet a)
  Reachable-Quiet (seeded a b) = seed-Quiet _ _ (Reachable-Quiet a) (Reachable-Quiet b)

  jitter_max-delta_between :
      (r : RtpStats J) (before after : Snapshot J) (d : RtpDeltaInfo J)
      → r.params.is_receiver_report_driven ≡ false
      → before.max_jitter ≡ f.of_uint32 0
      → delta_between r before after ≡ some d
      → (d.jitter_max ≡ f.of_uint32 0) ⊎ (d.jitter_max ≡ jitter_time r (f.of_uint32 0))
  unfolding delta_between full_delta empty_delta
  jitter_max-delta_between r before after d own zero_jitter =
      let Q : Option (RtpDeltaInfo J) → Type 0 = λ o.
        o ≡ some d
        → (d.jitter_max ≡ f.of_uint32 0) ⊎ (d.jitter_max ≡ jitter_time r (f.of_uint32 0)) in
      let expected = sub32 after.ext_start_sn before.ext_start_sn in
      if_both Q (ltb num_sequence_numbers expected) (λ _ e. absurd (cc))
        λ _.
          if_both Q (expected == 0)
            (λ _.
              if_both Q r.params.is_receiver_report_driven (λ _ e. absurd (cc))
                λ _ e. inl (ap (λ (x : RtpDeltaInfo J). x.jitter_max) (sym (unsome e))))
            λ _ e. inr (
              ap (λ (x : RtpDeltaInfo J). x.jitter_max) (sym (unsome e))
              ∙ ap (jitter_time r) (
                  ap (λ b. if b then before.max_jitter_overridden else before.max_jitter) own
                  ∙ zero_jitter))

  -- In every state that the methods make, where the stream is not driven by receiver reports, the
  -- largest jitter that `DeltaInfo` reports is zero or what its conversion makes of zero: `Update`
  -- raises the maximum of the stream for each snapshot, never that of a snapshot.
  pub jitter_max-delta_info :
      (r : RtpStats J) (id now : ℕ) (d : RtpDeltaInfo J)
      → Reachable r
      → r.params.is_receiver_report_driven ≡ false
      → (delta_info r id now).1 ≡ some d
      → (d.jitter_max ≡ f.of_uint32 0) ⊎ (d.jitter_max ≡ jitter_time r (f.of_uint32 0))
  unfolding delta_info get_and_reset_snapshot
  jitter_max-delta_info r id now d a own =
      if_both
        (λ (p : RtpStats J × Option (Snapshot J × Snapshot J)).
          (delta_of p).1 ≡ some d
          → (d.jitter_max ≡ f.of_uint32 0) ⊎ (d.jitter_max ≡ jitter_time r (f.of_uint32 0)))
        (not r.initialized || r.params.is_receiver_report_driven && is_zero r.last_rr_time)
        (λ _ e. absurd (cc))
        λ _.
          jitter_max-delta_between _ (or_start r (find_snapshot id r.snapshots)) _ d own
            (find_snapshot-Quiet id r.snapshots r (Reachable-Quiet a))
