-- ===== src/RtpStats/Counters.antt =====
-- The handlers of feedback and the getters of pkg/buffer/rtpstats.go. `now` is the time of the call.
use go_ortc.Base.{
  ℕ, Bool, true, false, ◌&&◌, ◌||◌, not, Option, none, some, List, [], ◌∷◌, ltb, leb, ◌==◌,
  if◌then◌else◌,
}
use go_ortc.Base.Words.{add32, sub32}
use go_ortc.RtpStats.Types.{RtpStats, Float64, ReceptionReport, Snapshot, new_snapshot}
use go_ortc.RtpStats.Ring.{get_ext_highest_sn}
use go_ortc.RtpStats.Update.{is_zero, each_snapshot, put_snapshot}

abbrev pub raise : (value most : ℕ) → ℕ
raise value most = if ltb most value then value else most

module _ {J : Type 0} where
  abbrev pub stop : RtpStats J → (now : ℕ) → RtpStats J
  stop r now = record r { end_time = some now }

  abbrev pub resync_on_next_packet : RtpStats J → RtpStats J
  resync_on_next_packet r = record r { resync_on_next_packet = true }

  abbrev pub is_active : RtpStats J → Bool
  is_active r = r.initialized && is_zero r.end_time

  unfoldable pub update_nack : RtpStats J → (nack_count : ℕ) → RtpStats J
  update_nack r nack_count =
      if not (is_zero r.end_time) then r else record r { nacks = add32 r.nacks nack_count }

  unfoldable pub update_nack_processed :
      RtpStats J → (nack_ack_count nack_miss_count nack_repeated_count : ℕ) → RtpStats J
  update_nack_processed r nack_ack_count nack_miss_count nack_repeated_count =
      if not (is_zero r.end_time) then r else record r {
        nack_acks = add32 r.nack_acks nack_ack_count;
        nack_misses = add32 r.nack_misses nack_miss_count;
        nack_repeated = add32 r.nack_repeated nack_repeated_count;
      }

  abbrev pub update_pli_locked : RtpStats J → (pli_count : ℕ) → RtpStats J
  update_pli_locked r pli_count = record r { plis = add32 r.plis pli_count }

  abbrev pub update_pli_time_locked : RtpStats J → (now : ℕ) → RtpStats J
  update_pli_time_locked r now = record r { last_pli = some now }

  unfoldable pub update_pli_and_time : RtpStats J → (pli_count now : ℕ) → RtpStats J
  update_pli_and_time r pli_count now =
      if not (is_zero r.end_time)
      then r
      else update_pli_time_locked (update_pli_locked r pli_count) now

  unfoldable pub update_pli : RtpStats J → (pli_count : ℕ) → RtpStats J
  update_pli r pli_count = if not (is_zero r.end_time) then r else update_pli_locked r pli_count

  unfoldable pub update_pli_time : RtpStats J → (now : ℕ) → RtpStats J
  update_pli_time r now = if not (is_zero r.end_time) then r else update_pli_time_locked r now

  unfoldable pub update_layer_lock_pli_and_time : RtpStats J → (pli_count now : ℕ) → RtpStats J
  update_layer_lock_pli_and_time r pli_count now =
      if not (is_zero r.end_time) then r else record r {
        layer_lock_plis = add32 r.layer_lock_plis pli_count;
        last_layer_lock_pli = some now;
      }

  unfoldable pub update_fir : RtpStats J → (fir_count : ℕ) → RtpStats J
  update_fir r fir_count =
      if not (is_zero r.end_time) then r else record r { firs = add32 r.firs fir_count }

  unfoldable pub update_fir_time : RtpStats J → (now : ℕ) → RtpStats J
  update_fir_time r now = if not (is_zero r.end_time) then r else record r { last_fir = some now }

  unfoldable pub update_key_frame : RtpStats J → (kf_count now : ℕ) → RtpStats J
  update_key_frame r kf_count now =
      if not (is_zero r.end_time)
      then r
      else record r { key_frames = add32 r.key_frames kf_count; last_key_frame = some now }

  abbrev pub raise_rtt : (rtt : ℕ) → Snapshot J → Snapshot J
  raise_rtt rtt s = record s { max_rtt = raise rtt s.max_rtt }

  unfoldable pub update_rtt : RtpStats J → (rtt : ℕ) → RtpStats J
  update_rtt r rtt = if not (is_zero r.end_time) then r else record r {
    rtt = rtt;
    max_rtt = raise rtt r.max_rtt;
    snapshots = each_snapshot (raise_rtt rtt) r.snapshots;
  }

  unfoldable pub get_total_packets_primary : RtpStats J → ℕ
  get_total_packets_primary r =
      let packets_expected = add32 (sub32 (get_ext_highest_sn r) r.ext_start_sn) 1 in
      let packets_seen = sub32 packets_expected r.packets_lost in
      if ltb packets_expected r.packets_lost
      then 0
      else if ltb packets_seen r.packets_padding
      then 0
      else sub32 packets_seen r.packets_padding

  unfoldable pub put_snapshots :
      List (ℕ × Snapshot J) → List (ℕ × Snapshot J) → List (ℕ × Snapshot J)
  put_snapshots [] ss = ss
  put_snapshots ((id, s) ∷ more) ss = put_snapshots more (put_snapshot id s ss)

  abbrev pub seed_from : RtpStats J → RtpStats J → RtpStats J
  seed_from r from = record from {
    params = r.params;
    end_time = r.end_time;
    snapshots = put_snapshots from.snapshots r.snapshots;
  }

  -- All fields are copied but the parameters and the end of the stream.
  unfoldable pub seed : RtpStats J → Option (RtpStats J) → RtpStats J
  seed r none = r
  seed r (some from) = if not from.initialized then r else seed_from r from

module _ {J : Type 0} ⦃f : Float64 J⦄ where
  unfoldable pub new_snapshot_id : RtpStats J → (now : ℕ) → RtpStats J × ℕ
  new_snapshot_id r now =
      let id = r.next_snapshot_id in
      let added =
        if r.initialized
        then put_snapshot id (new_snapshot (some now) r.ext_start_sn) r.snapshots
        else r.snapshots in
      (record r { snapshots = added; next_snapshot_id = add32 id 1 }, id)

  abbrev pub raise_jitter : J → J → J
  raise_jitter value most = if f.ltb most value then value else most

  abbrev pub report_snapshot : (changed : Bool) (rtt : ℕ) → J → Snapshot J → Snapshot J
  report_snapshot changed rtt jitter s = record s {
    max_rtt = if changed then raise rtt s.max_rtt else s.max_rtt;
    max_jitter_overridden = raise_jitter jitter s.max_jitter_overridden;
  }

  unfoldable pub take_report :
      RtpStats J → ReceptionReport → (rtt : ℕ) (changed : Bool) (now : ℕ) → RtpStats J
  take_report r rr rtt changed now =
      let jitter = f.of_uint32 rr.jitter in
      record r {
        ext_highest_sn_overridden = rr.last_sequence_number;
        packets_lost_overridden = rr.total_lost;
        rtt = if changed then rtt else r.rtt;
        max_rtt = if changed then raise rtt r.max_rtt else r.max_rtt;
        jitter_overridden = jitter;
        max_jitter_overridden = raise_jitter jitter r.max_jitter_overridden;
        snapshots = each_snapshot (report_snapshot changed rtt jitter) r.snapshots;
        last_rr_time = some now;
        last_rr = some rr;
      }

  -- `measured` is what mediatransportutil's `GetRttMsFromReceiverReportOnly` makes of the report: the
  -- time, and whether there was no error.
  unfoldable pub update_from_receiver_report :
      RtpStats J → ReceptionReport → (measured : ℕ × Bool) (now : ℕ) → RtpStats J × (ℕ × Bool)
  update_from_receiver_report r rr (rtt, ok) now =
      let changed = ok && not (rtt == r.rtt) in
      if not (is_zero r.end_time) || not r.params.is_receiver_report_driven
      then (r, (0, false))
      else if is_zero r.last_rr_time || leb r.ext_highest_sn_overridden rr.last_sequence_number
      then (take_report r rr rtt changed now, (rtt, changed))
      else (r, (rtt, changed))
