-- ===== src/RtpStats/Snapshots.antt =====
-- The snapshots of pkg/buffer/rtpstats.go and the statistics of the interval between two.
use go_ortc.Base.{
  ℕ, zero, suc, ◌%◌, ◌&&◌, ◌||◌, not, Option, none, some, List, [], ◌∷◌, ltb, leb, ◌==◌,
  if◌then◌else◌, get_or,
}
use go_ortc.Base.Words.{add16, sub16, add32, sub32, add64, sub64}
use go_ortc.RtpStats.Types.{RtpStats, Float64, Snapshot, SnInfo, no_info, new_snapshot}
use go_ortc.RtpStats.Ring.{get_ext_highest_sn, get_sn_info_out_of_order_ptr}
use go_ortc.RtpStats.Update.{is_zero, put_snapshot}

pub record IntervalStats : Type 0 where
  pub packets : ℕ
  pub bytes : ℕ
  pub header_bytes : ℕ
  pub packets_padding : ℕ
  pub bytes_padding : ℕ
  pub header_bytes_padding : ℕ
  pub packets_lost : ℕ
  pub frames : ℕ

-- The start of the loop, and the local `packetsNotFound` beside the result.
abbrev pub no_stats : IntervalStats × ℕ
no_stats = (
  record {
    packets = 0;
    bytes = 0;
    header_bytes = 0;
    packets_padding = 0;
    bytes_padding = 0;
    header_bytes_padding = 0;
    packets_lost = 0;
    frames = 0;
  },
  0,
)

abbrev pub num_sequence_numbers : ℕ
num_sequence_numbers = 65536

-- The `switch` of `processSN`, and the count of frames below it.
unfoldable pub process_info : IntervalStats → SnInfo → IntervalStats
process_info i info =
    let frames = if info.marker then add32 i.frames 1 else i.frames in
    if info.pkt_size == 0
    then record i { packets_lost = add32 i.packets_lost 1; frames = frames }
    else if info.is_padding_only
    then record i {
      packets_padding = add32 i.packets_padding 1;
      bytes_padding = add64 i.bytes_padding info.pkt_size;
      header_bytes_padding = add64 i.header_bytes_padding info.hdr_size;
      frames = frames;
    }
    else record i {
      packets = add32 i.packets 1;
      bytes = add64 i.bytes info.pkt_size;
      header_bytes = add64 i.header_bytes info.hdr_size;
      frames = frames;
    }

abbrev pub process_at : List SnInfo → IntervalStats × ℕ → Option ℕ → IntervalStats × ℕ
process_at infos (i, not_found) none = (i, add32 not_found 1)
process_at infos (i, not_found) (some p) = (process_info i (get_or infos p no_info), not_found)

-- The uint16 counter makes this many rounds.
abbrev pub interval_rounds : (start_inclusive end_exclusive : ℕ) → ℕ
interval_rounds start_inclusive end_exclusive =
    if start_inclusive == end_exclusive
    then num_sequence_numbers
    else sub16 end_exclusive start_inclusive

module _ {J : Type 0} where
  unfoldable pub process_sn : RtpStats J → ℕ → IntervalStats × ℕ → IntervalStats × ℕ
  process_sn r sn q = process_at r.sn_infos q (get_sn_info_out_of_order_ptr r sn)

  -- `n` rounds of the loop, from `sn` on.
  unfoldable pub process_rounds : RtpStats J → ℕ → ℕ → IntervalStats × ℕ → IntervalStats × ℕ
  process_rounds r zero sn q = q
  process_rounds r (suc n) sn q = process_rounds r n (add16 sn 1) (process_sn r sn q)

  unfoldable pub get_interval_stats :
      RtpStats J → (start_inclusive end_exclusive : ℕ) → IntervalStats × ℕ
  get_interval_stats r start_inclusive end_exclusive =
      process_rounds r (interval_rounds start_inclusive end_exclusive)
        (if start_inclusive == end_exclusive then 0 else start_inclusive) no_stats

  -- `snapshots[id]`, `none` for nil.
  unfoldable pub find_snapshot : ℕ → List (ℕ × Snapshot J) → Option (Snapshot J)
  find_snapshot id [] = none
  find_snapshot id ((j, t) ∷ ss) = if j == id then some t else find_snapshot id ss

  abbrev pub get_ext_highest_sn_adjusted : RtpStats J → ℕ
  get_ext_highest_sn_adjusted r =
      if r.params.is_receiver_report_driven && not (is_zero r.last_rr_time)
      then r.ext_highest_sn_overridden
      else get_ext_highest_sn r

module _ {J : Type 0} ⦃f : Float64 J⦄ where
  abbrev pub or_start : RtpStats J → Option (Snapshot J) → Snapshot J
  or_start r none = new_snapshot r.start_time r.ext_start_sn
  or_start r (some s) = s

  unfoldable pub snapshot_now : RtpStats J → (now : ℕ) → Snapshot J
  snapshot_now r now = record {
    start_time = some now;
    ext_start_sn = add32 (get_ext_highest_sn_adjusted r) 1;
    packets_duplicate = r.packets_duplicate;
    bytes_duplicate = r.bytes_duplicate;
    header_bytes_duplicate = r.header_bytes_duplicate;
    packets_lost_overridden = r.packets_lost_overridden;
    nacks = r.nacks;
    plis = r.plis;
    firs = r.firs;
    max_rtt = 0;
    max_jitter = f.of_uint32 0;
    max_jitter_overridden = f.of_uint32 0;
  }

  -- The state after the call and the two snapshots, `none` for the two nil.
  unfoldable pub get_and_reset_snapshot :
      RtpStats J → (id now : ℕ) → RtpStats J × Option (Snapshot J × Snapshot J)
  get_and_reset_snapshot r id now =
      if not r.initialized || r.params.is_receiver_report_driven && is_zero r.last_rr_time
      then (r, none)
      else (
        record r { snapshots = put_snapshot id (snapshot_now r now) r.snapshots },
        some (or_start r (find_snapshot id r.snapshots), snapshot_now r now),
      )

-- `RTPDeltaInfo`; its duration is kept as the two ends.
pub record RtpDeltaInfo (J : Type 0) : Type 0 where
  pub start_time : Option ℕ
  pub end_time : Option ℕ
  pub packets : ℕ
  pub bytes : ℕ
  pub header_bytes : ℕ
  pub packets_duplicate : ℕ
  pub bytes_duplicate : ℕ
  pub header_bytes_duplicate : ℕ
  pub packets_padding : ℕ
  pub bytes_padding : ℕ
  pub header_bytes_padding : ℕ
  pub packets_lost : ℕ
  pub packets_missing : ℕ
  pub frames : ℕ
  pub rtt_max : ℕ
  pub jitter_max : J
  pub nacks : ℕ
  pub plis : ℕ
  pub firs : ℕ

abbrev pub as_loss : ℕ → ℕ
as_loss lost = if leb 2147483648 lost then 0 else lost

module _ {J : Type 0} ⦃f : Float64 J⦄ where
  -- The lost and the missing packets of the interval.
  unfoldable pub delta_losses :
      RtpStats J → IntervalStats → (before after : Snapshot J) → (packets_expected : ℕ) → ℕ × ℕ
  delta_losses r stats before after packets_expected =
      let lost = as_loss (sub32 after.packets_lost_overridden before.packets_lost_overridden) in
      if r.params.is_receiver_report_driven
      then (if ltb packets_expected lost then packets_expected else lost, stats.packets_lost)
      else (stats.packets_lost, 0)

  abbrev pub max_jitter_of : RtpStats J → Snapshot J → J
  max_jitter_of r s =
      if r.params.is_receiver_report_driven then s.max_jitter_overridden else s.max_jitter

  abbrev pub jitter_time : RtpStats J → J → J
  jitter_time r jitter =
      f.mul (f.div jitter (f.of_uint32 r.params.clock_rate)) (f.of_uint32 1000000)

  -- An interval with no packets, all fields zero but the times.
  unfoldable pub empty_delta : (before after : Snapshot J) → RtpDeltaInfo J
  empty_delta before after = record {
    start_time = before.start_time;
    end_time = after.start_time;
    packets = 0;
    bytes = 0;
    header_bytes = 0;
    packets_duplicate = 0;
    bytes_duplicate = 0;
    header_bytes_duplicate = 0;
    packets_padding = 0;
    bytes_padding = 0;
    header_bytes_padding = 0;
    packets_lost = 0;
    packets_missing = 0;
    frames = 0;
    rtt_max = 0;
    jitter_max = f.of_uint32 0;
    nacks = 0;
    plis = 0;
    firs = 0;
  }

  unfoldable pub full_delta :
      RtpStats J
      → IntervalStats
      → (losses : ℕ × ℕ) (before after : Snapshot J) → (packets_expected : ℕ) → RtpDeltaInfo J
  full_delta r stats (lost, missing) before after packets_expected = record {
    start_time = before.start_time;
    end_time = after.start_time;
    packets = sub32 packets_expected stats.packets_padding;
    bytes = stats.bytes;
    header_bytes = stats.header_bytes;
    packets_duplicate = sub32 after.packets_duplicate before.packets_duplicate;
    bytes_duplicate = sub64 after.bytes_duplicate before.bytes_duplicate;
    header_bytes_duplicate = sub64 after.header_bytes_duplicate before.header_bytes_duplicate;
    packets_padding = stats.packets_padding;
    bytes_padding = stats.bytes_padding;
    header_bytes_padding = stats.header_bytes_padding;
    packets_lost = lost;
    packets_missing = missing;
    frames = stats.frames;
    rtt_max = before.max_rtt;
    jitter_max = jitter_time r (max_jitter_of r before);
    nacks = sub32 after.nacks before.nacks;
    plis = sub32 after.plis before.plis;
    firs = sub32 after.firs before.firs;
  }

  unfoldable pub delta_between : RtpStats J → (before after : Snapshot J) → Option (RtpDeltaInfo J)
  delta_between r before after =
      let packets_expected = sub32 after.ext_start_sn before.ext_start_sn in
      let stats =
        (get_interval_stats r (before.ext_start_sn % 65536) (after.ext_start_sn % 65536)).0 in
      if ltb num_sequence_numbers packets_expected
      then none
      else if packets_expected == 0
      then (if r.params.is_receiver_report_driven then none else some (empty_delta before after))
      else some (
          full_delta r stats (delta_losses r stats before after packets_expected) before after
            packets_expected)

  abbrev pub delta_of :
      RtpStats J × Option (Snapshot J × Snapshot J) → RtpStats J × Option (RtpDeltaInfo J)
  delta_of (r, none) = (r, none)
  delta_of (r, some (before, after)) = (r, delta_between r before after)

  unfoldable pub delta_info : RtpStats J → (id now : ℕ) → RtpStats J × Option (RtpDeltaInfo J)
  delta_info r id now = delta_of (get_and_reset_snapshot r id now)
