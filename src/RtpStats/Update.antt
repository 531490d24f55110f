-- ===== src/RtpStats/Update.antt =====
-- `Update` of pkg/buffer/rtpstats.go: what a received packet does to the statistics.
-- The times are arguments: `packet_time` of the packet, `now` of the clock.
use go_ortc.Base.{
  ℕ, zero, suc, ◌+◌, ◌-◌, ◌%◌, Bool, true, false, ◌&&◌, ◌||◌, not, Option, none, some, List, [],
  ◌∷◌, ltb, leb, ◌==◌, if◌then◌else◌,
}
use go_ortc.Base.Words.{sub16, add16, add32, sub32, add64}
use go_ortc.RtpStats.Types.{
  RtpStats, Float64, Header, RtpFlowState, no_flow, Snapshot, new_snapshot, SnInfo,
  first_snapshot_id,
}
use go_ortc.RtpStats.Jitter.{update_jitter}
use go_ortc.RtpStats.Ring.{
  get_ext_highest_sn, info_of, set_sn_info, clear_sn_infos, is_sn_info_lost, update_gap_histogram,
}

-- `r.endTime.IsZero()`
abbrev pub is_zero : Option ℕ → Bool
is_zero none = true
is_zero (some t) = false

-- The sizes of a packet, and what the ring keeps of them.
abbrev pub hdr_size : Header → ℕ
hdr_size h = h.marshal_size

abbrev pub pkt_size : Header → (payload_size padding_size : ℕ) → ℕ
pkt_size h payload_size padding_size = add64 h.marshal_size (payload_size + padding_size)

abbrev pub packet_info : Header → (payload_size padding_size : ℕ) → SnInfo
packet_info h payload_size padding_size =
    info_of (pkt_size h payload_size padding_size % 65536) (hdr_size h % 65536)
      (payload_size % 65536) h.marker

module _ {J : Type 0} where
  -- `snapshots[id] = s`
  unfoldable pub put_snapshot : ℕ → Snapshot J → List (ℕ × Snapshot J) → List (ℕ × Snapshot J)
  put_snapshot id s [] = (id, s) ∷ []
  put_snapshot id s ((j, t) ∷ ss) = if j == id then (id, s) ∷ ss else (j, t) ∷ put_snapshot id s ss

  -- A change of each snapshot in place.
  unfoldable pub each_snapshot :
      (Snapshot J → Snapshot J) → List (ℕ × Snapshot J) → List (ℕ × Snapshot J)
  each_snapshot g [] = []
  each_snapshot g ((j, t) ∷ ss) = (j, g t) ∷ each_snapshot g ss

  abbrev pub move_start : (before after : ℕ) → Snapshot J → Snapshot J
  move_start before after s =
      if s.ext_start_sn == before then record s { ext_start_sn = after } else s

  -- `maybeAdjustStartSN`: `none` for false. `info` is what is written at the packet's number.
  unfoldable pub maybe_adjust_start_sn : RtpStats J → Header → SnInfo → Option (RtpStats J)
  maybe_adjust_start_sn r h info =
      let start = r.ext_start_sn % 65536 in
      let sn = h.sequence_number in
      let moved = record r {
        packets_lost = add32 r.packets_lost (sub32 (sub16 start sn) 1);
        ext_start_sn = sn;
      } in
      let written = set_sn_info moved sn info in
      if leb 32768 (add32 (sub32 (get_ext_highest_sn r) r.ext_start_sn) 1)
      then none
      else if ltb (sub16 sn start) 32768
      then none
      else some (record written {
        snapshots = each_snapshot (move_start r.ext_start_sn sn) written.snapshots;
      })

  -- The duplicate or out-of-order branch; the second result is `isDuplicate`.
  unfoldable pub late_unadjusted :
      RtpStats J → Header → (payload_size padding_size : ℕ) → RtpStats J × Bool
  late_unadjusted r h payload_size padding_size =
      if not (is_sn_info_lost r h.sequence_number)
      then (
        record r {
          bytes_duplicate = add64 r.bytes_duplicate (pkt_size h payload_size padding_size);
          header_bytes_duplicate = add64 r.header_bytes_duplicate (hdr_size h);
          packets_duplicate = add32 r.packets_duplicate 1;
        },
        true,
      )
      else (
        set_sn_info (record r { packets_lost = sub32 r.packets_lost 1 }) h.sequence_number
            (packet_info h payload_size padding_size),
        false,
      )

  abbrev pub after_adjust : Option (RtpStats J) → RtpStats J × Bool → RtpStats J × Bool
  after_adjust (some r) other = (r, false)
  after_adjust none other = other

  unfoldable pub late :
      RtpStats J → Header → (diff payload_size padding_size : ℕ) → RtpStats J × Bool
  late r h diff payload_size padding_size =
      let s =
        if diff == 0
        then r
        else record r { packets_out_of_order = add32 r.packets_out_of_order 1 } in
      after_adjust (maybe_adjust_start_sn s h (packet_info h payload_size padding_size))
        (late_unadjusted s h payload_size padding_size)

  -- The in-order branch.
  unfoldable pub in_order :
      RtpStats J
      → Header
      → (first : Bool) → (diff payload_size padding_size packet_time : ℕ) → RtpStats J
  in_order r h first diff payload_size padding_size packet_time =
      let sn = h.sequence_number in
      let gapped = update_gap_histogram r diff in
      let cleared = clear_sn_infos gapped (add16 r.highest_sn 1) sn in
      let counted = record cleared { packets_lost = add32 cleared.packets_lost (diff - 1) } in
      let written = set_sn_info counted sn (packet_info h payload_size padding_size) in
      record written {
        cycles =
            if ltb sn written.highest_sn && not first
            then (written.cycles + 1) % 65536
            else written.cycles;
        highest_sn = sn;
        highest_ts = h.timestamp;
        highest_time = packet_time;
      }

  abbrev pub flow_of : RtpStats J → Header → (diff : ℕ) → RtpFlowState
  flow_of r h diff =
      if ltb 1 diff
      then record {
        has_loss = true;
        loss_start_inclusive = add16 r.highest_sn 1;
        loss_end_exclusive = h.sequence_number;
      }
      else no_flow

  -- `resyncOnNextPacket`
  unfoldable pub resync : RtpStats J → Header → (packet_time : ℕ) → RtpStats J
  resync r h packet_time =
      if r.resync_on_next_packet
      then record r {
        resync_on_next_packet = false;
        highest_sn = sub16 h.sequence_number 1;
        highest_ts = h.timestamp;
        highest_time = packet_time;
      }
      else r

module _ {J : Type 0} ⦃f : Float64 J⦄ where
  -- `for i := id; …; i++ { snapshots[i] = s }`, `count` rounds.
  unfoldable pub fill_snapshots :
      (count id : ℕ) → Snapshot J → List (ℕ × Snapshot J) → List (ℕ × Snapshot J)
  fill_snapshots zero id s ss = ss
  fill_snapshots (suc count) id s ss = fill_snapshots count (id + 1) s (put_snapshot id s ss)

  -- The branch for the first packet.
  unfoldable pub begin : RtpStats J → Header → (packet_time now : ℕ) → RtpStats J
  begin r h packet_time now = if r.initialized then r else record r {
    initialized = true;
    start_time = some now;
    highest_sn = sub16 h.sequence_number 1;
    highest_ts = h.timestamp;
    highest_time = packet_time;
    ext_start_sn = h.sequence_number;
    cycles = 0;
    snapshots =
        fill_snapshots (r.next_snapshot_id - first_snapshot_id) first_snapshot_id
          (new_snapshot (some now) h.sequence_number) r.snapshots;
  }

  -- The last part, for a packet that is no duplicate.
  unfoldable pub account :
      RtpStats J → Header → (payload_size padding_size packet_time : ℕ) → RtpStats J
  account r h payload_size padding_size packet_time =
      if payload_size == 0
      then record r {
        packets_padding = add32 r.packets_padding 1;
        bytes_padding = add64 r.bytes_padding (pkt_size h payload_size padding_size);
        header_bytes_padding = add64 r.header_bytes_padding (hdr_size h);
      }
      else update_jitter
          (record r {
            bytes = add64 r.bytes (pkt_size h payload_size padding_size);
            header_bytes = add64 r.header_bytes (hdr_size h);
            frames = if h.marker then add32 r.frames 1 else r.frames;
          })
          h packet_time

  abbrev pub account_unless :
      RtpStats J × Bool → Header → (payload_size padding_size packet_time : ℕ) → RtpStats J
  account_unless (r, is_duplicate) h payload_size padding_size packet_time =
      if is_duplicate then r else account r h payload_size padding_size packet_time

  -- The `switch` and what follows it.
  unfoldable pub count_packet :
      RtpStats J
      → Header
      → (first : Bool) → (payload_size padding_size packet_time : ℕ) → RtpStats J × RtpFlowState
  count_packet r h first payload_size padding_size packet_time =
      let diff = sub16 h.sequence_number r.highest_sn in
      if diff == 0 || ltb 32768 diff
      then (
        account_unless (late r h diff payload_size padding_size) h payload_size padding_size
            packet_time,
        no_flow,
      )
      else (
        account (in_order r h first diff payload_size padding_size packet_time) h payload_size
            padding_size packet_time,
        flow_of r h diff,
      )

  unfoldable pub update :
      RtpStats J
      → Header
      → (payload_size padding_size packet_time now : ℕ) → RtpStats J × RtpFlowState
  update r h payload_size padding_size packet_time now =
      if not (is_zero r.end_time)
      then (r, no_flow)
      else count_packet (resync (begin r h packet_time now) h packet_time) h (not r.initialized)
          payload_size padding_size packet_time
