-- ===== src/RtpStats/MaxJitter.antt =====
-- The handlers of pkg/buffer/rtpstats.go, and the largest jitter of each snapshot.
use go_ortc.Base.{
  ℕ, ◌%◌, ◌≡◌, refl, sym, ◌∙◌, Bool, true, false, not, ◌&&◌, ◌||◌, Option, some, if_both, subst,
  if◌then◌else◌, ◌==◌, ltb, leb,
}
use go_ortc.Base.Words.{sub16, add32, sub32}
use go_ortc.RtpStats.Types.{
  RtpStats, Float64, Header, SnInfo, Snapshot, ReceptionReport, RtpFlowState, new_snapshot,
}
use go_ortc.RtpStats.Ring.{is_sn_info_lost, get_ext_highest_sn}
use go_ortc.RtpStats.Update.{
  move_start, maybe_adjust_start_sn, late_unadjusted, after_adjust, late, resync, begin,
  account_unless, count_packet, update, is_zero,
}
use go_ortc.RtpStats.Counters.{
  new_snapshot_id, raise_rtt, take_report, update_from_receiver_report, update_nack,
  update_nack_processed, update_pli_and_time, update_pli, update_pli_time,
  update_layer_lock_pli_and_time, update_fir, update_fir_time, update_key_frame, update_rtt, seed,
}
use go_ortc.RtpStats.Snapshots.{snapshot_now, get_and_reset_snapshot}
use go_ortc.RtpStats.Stopped.{
  Event, handle, packet, nack, nack_processed, pli_and_time, pli, pli_time, layer_lock_pli, fir,
  fir_time, key_frame, round_trip, receiver_report,
}
use go_ortc.RtpStats.Quiet.{
  IsQuiet, Quiet, put_snapshot-Quiet, put_snapshots-Quiet, fill_snapshots-Quiet,
  each_snapshot-Quiet, set_sn_info-snapshots, account-snapshots, in_order-snapshots,
}

module _ {J : Type 0} ⦃f : Float64 J⦄ where
  maybe_adjust-Quiet :
      (r : RtpStats J) (h : Header) (info : SnInfo) (other : RtpStats J × Bool)
      → IsQuiet r
      → IsQuiet other.0
      → IsQuiet (after_adjust (maybe_adjust_start_sn r h info) other).0
  unfolding maybe_adjust_start_sn
  maybe_adjust-Quiet r h info other q k =
      let sn = h.sequence_number in
      let Q : Option (RtpStats J) → Type 0 = λ o. IsQuiet (after_adjust o other).0 in
      if_both Q (leb 32768 (add32 (sub32 (get_ext_highest_sn r) r.ext_start_sn) 1)) (λ _. k)
        λ _.
          if_both Q (ltb (sub16 sn (r.ext_start_sn % 65536)) 32768) (λ _. k)
            λ _.
              each_snapshot-Quiet (move_start r.ext_start_sn sn) _
                (λ s.
                  if_both (λ (t : Snapshot J). t.max_jitter ≡ s.max_jitter)
                    (s.ext_start_sn == r.ext_start_sn) (λ _. refl) (λ _. refl))
                (subst Quiet (sym (set_sn_info-snapshots _ sn info)) q)

  late_unadjusted-Quiet :
      (r : RtpStats J) (h : Header) (payload padding : ℕ)
      → IsQuiet r
      → IsQuiet (late_unadjusted r h payload padding).0
  unfolding late_unadjusted
  late_unadjusted-Quiet r h payload padding q =
      if_both (λ (p : RtpStats J × Bool). IsQuiet p.0) (not (is_sn_info_lost r h.sequence_number))
        (λ _. q) (λ _. subst Quiet (sym (set_sn_info-snapshots _ h.sequence_number _)) q)

  late-Quiet :
      (r : RtpStats J) (h : Header) (diff payload padding : ℕ)
      → IsQuiet r
      → IsQuiet (late r h diff payload padding).0
  unfolding late
  late-Quiet r h diff payload padding q =
      let s : RtpStats J =
        if diff == 0
        then r
        else record r { packets_out_of_order = add32 r.packets_out_of_order 1 } in
      let same : IsQuiet s = if_both IsQuiet (diff == 0) (λ _. q) (λ _. q) in
      maybe_adjust-Quiet s h _ _ same (late_unadjusted-Quiet s h payload padding same)

  account_unless-Quiet :
      (p : RtpStats J × Bool) (h : Header) (payload padding time : ℕ)
      → IsQuiet p.0
      → IsQuiet (account_unless p h payload padding time)
  account_unless-Quiet (r, true) h payload padding time q = q
  account_unless-Quiet (r, false) h payload padding time q =
      subst Quiet (sym (account-snapshots r h payload padding time)) q

  count_packet-Quiet :
      (r : RtpStats J) (h : Header) (first : Bool) (payload padding time : ℕ)
      → IsQuiet r
      → IsQuiet (count_packet r h first payload padding time).0
  unfolding count_packet
  count_packet-Quiet r h first payload padding time q =
      let diff = sub16 h.sequence_number r.highest_sn in
      if_both (λ (p : RtpStats J × RtpFlowState). IsQuiet p.0) (diff == 0 || ltb 32768 diff)
        (λ _. account_unless-Quiet _ h payload padding time (late-Quiet r h diff payload padding q))
        (λ _.
          subst Quiet
            (sym (
              account-snapshots _ h payload padding time
              ∙ in_order-snapshots r h first diff payload padding time))
            q)

  begin-Quiet :
      (r : RtpStats J) (h : Header) (time now : ℕ) → IsQuiet r → IsQuiet (begin r h time now)
  unfolding begin new_snapshot
  begin-Quiet r h time now q =
      if_both IsQuiet r.initialized (λ _. q) (λ _. fill_snapshots-Quiet _ _ _ _ refl q)

  update-Quiet :
      (r : RtpStats J) (h : Header) (payload padding time now : ℕ)
      → IsQuiet r
      → IsQuiet (update r h payload padding time now).0
  unfolding update resync
  update-Quiet r h payload padding time now q =
      let s = begin r h time now in
      let ready : IsQuiet s = begin-Quiet r h time now q in
      if_both (λ (p : RtpStats J × RtpFlowState). IsQuiet p.0) (not (is_zero r.end_time)) (λ _. q)
        (λ _.
          count_packet-Quiet _ h (not r.initialized) payload padding time
            (if_both IsQuiet s.resync_on_next_packet (λ _. ready) (λ _. ready)))

  update_from_receiver_report-Quiet :
      (r : RtpStats J) (rr : ReceptionReport) (measured : ℕ × Bool) (now : ℕ)
      → IsQuiet r
      → IsQuiet (update_from_receiver_report r rr measured now).0
  unfolding update_from_receiver_report take_report
  update_from_receiver_report-Quiet r rr (rtt, ok) now q =
      let P : RtpStats J × (ℕ × Bool) → Type 0 = λ p. IsQuiet p.0 in
      if_both P (not (is_zero r.end_time) || not r.params.is_receiver_report_driven) (λ _. q)
        λ _.
          if_both P
            (is_zero r.last_rr_time || leb r.ext_highest_sn_overridden rr.last_sequence_number)
            (λ _. each_snapshot-Quiet _ r.snapshots (λ s. refl) q) (λ _. q)

  kept : (b : Bool) (r s : RtpStats J) → IsQuiet r → IsQuiet s → IsQuiet (if b then r else s)
  kept b r s q p = if_both IsQuiet b (λ _. q) (λ _. p)

  pub handle-Quiet : (e : Event) (r : RtpStats J) → IsQuiet r → IsQuiet (handle e r)
  unfolding handle update_nack update_nack_processed update_pli_and_time update_pli update_pli_time
      update_layer_lock_pli_and_time update_fir update_fir_time update_key_frame update_rtt
  handle-Quiet (packet h payload padding time now) r q = update-Quiet r h payload padding time now q
  handle-Quiet (nack n) r q = kept _ r _ q q
  handle-Quiet (nack_processed acks misses repeated) r q = kept _ r _ q q
  handle-Quiet (pli_and_time n now) r q = kept _ r _ q q
  handle-Quiet (pli n) r q = kept _ r _ q q
  handle-Quiet (pli_time now) r q = kept _ r _ q q
  handle-Quiet (layer_lock_pli n now) r q = kept _ r _ q q
  handle-Quiet (fir n) r q = kept _ r _ q q
  handle-Quiet (fir_time now) r q = kept _ r _ q q
  handle-Quiet (key_frame n now) r q = kept _ r _ q q
  handle-Quiet (round_trip rtt) r q =
      kept _ r _ q (each_snapshot-Quiet (raise_rtt rtt) r.snapshots (λ s. refl) q)
  handle-Quiet (receiver_report rr measured now) r q =
      update_from_receiver_report-Quiet r rr measured now q

  pub get_and_reset_snapshot-Quiet :
      (r : RtpStats J) (id now : ℕ) → IsQuiet r → IsQuiet (get_and_reset_snapshot r id now).0
  unfolding get_and_reset_snapshot snapshot_now
  get_and_reset_snapshot-Quiet r id now q =
      if_both (λ (p : RtpStats J × Option (Snapshot J × Snapshot J)). IsQuiet p.0)
        (not r.initialized || r.params.is_receiver_report_driven && is_zero r.last_rr_time) (λ _. q)
        (λ _. put_snapshot-Quiet id _ r.snapshots refl q)

  pub new_snapshot_id-Quiet :
      (r : RtpStats J) (now : ℕ) → IsQuiet r → IsQuiet (new_snapshot_id r now).0
  unfolding new_snapshot_id new_snapshot
  new_snapshot_id-Quiet r now q =
      if_both Quiet r.initialized (λ _. put_snapshot-Quiet _ _ r.snapshots refl q) (λ _. q)

  pub seed-Quiet : (r from : RtpStats J) → IsQuiet r → IsQuiet from → IsQuiet (seed r (some from))
  unfolding seed
  seed-Quiet r from q p = kept _ r _ q (put_snapshots-Quiet from.snapshots r.snapshots p q)
