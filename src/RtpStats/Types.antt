-- ===== src/RtpStats/Types.antt =====
-- The state of pkg/buffer/rtpstats.go. Times are nanoseconds, `none` for Go's zero time. The type of
-- float64 values is the parameter `J`; the source's operations on them are an instance argument.
use go_ortc.Base.{ℕ, Bool, false, Option, none, List, [], replicate}

-- Of float64 the source uses conversions, arithmetic and the order, here with no laws.
pub record Float64 (J : Type 0) : Type 0 where
  pub of_int32 : ℕ → J
  pub of_uint32 : ℕ → J
  pub add : J → J → J
  pub sub : J → J → J
  pub mul : J → J → J
  pub div : J → J → J
  pub ltb : J → J → Bool

-- What the source reads of pion's `rtp.Header`.
pub record Header : Type 0 where
  pub sequence_number : ℕ
  pub timestamp : ℕ
  pub marker : Bool
  pub marshal_size : ℕ

-- pion's `rtcp.ReceptionReport`.
pub record ReceptionReport : Type 0 where
  pub ssrc : ℕ
  pub fraction_lost : ℕ
  pub total_lost : ℕ
  pub last_sequence_number : ℕ
  pub jitter : ℕ
  pub last_sender_report : ℕ
  pub delay : ℕ

pub record RtpFlowState : Type 0 where
  pub has_loss : Bool
  pub loss_start_inclusive : ℕ
  pub loss_end_exclusive : ℕ

abbrev pub no_flow : RtpFlowState
no_flow = record { has_loss = false; loss_start_inclusive = 0; loss_end_exclusive = 0 }

pub record Snapshot (J : Type 0) : Type 0 where
  pub start_time : Option ℕ
  pub ext_start_sn : ℕ
  pub packets_duplicate : ℕ
  pub bytes_duplicate : ℕ
  pub header_bytes_duplicate : ℕ
  pub packets_lost_overridden : ℕ
  pub nacks : ℕ
  pub plis : ℕ
  pub firs : ℕ
  pub max_rtt : ℕ
  pub max_jitter : J
  pub max_jitter_overridden : J

-- The arrival time of a packet is never written or read in the source, and is left out.
pub record SnInfo : Type 0 where
  pub hdr_size : ℕ
  pub pkt_size : ℕ
  pub is_padding_only : Bool
  pub marker : Bool

abbrev pub no_info : SnInfo
no_info = record { hdr_size = 0; pkt_size = 0; is_padding_only = false; marker = false }

abbrev pub sn_info_size : ℕ
sn_info_size = 2048

abbrev pub gap_histogram_num_bins : ℕ
gap_histogram_num_bins = 101

abbrev pub first_snapshot_id : ℕ
first_snapshot_id = 1

pub record RtpStatsParams : Type 0 where
  pub clock_rate : ℕ
  pub is_receiver_report_driven : Bool

-- The sender report data is left out: only its own setters and the reports' times use it.
pub record RtpStats (J : Type 0) : Type 0 where
  pub params : RtpStatsParams
  pub initialized : Bool
  pub resync_on_next_packet : Bool
  pub start_time : Option ℕ
  pub end_time : Option ℕ
  pub ext_start_sn : ℕ
  pub highest_sn : ℕ
  pub cycles : ℕ
  pub ext_highest_sn_overridden : ℕ
  pub last_rr_time : Option ℕ
  pub last_rr : Option ReceptionReport
  pub highest_ts : ℕ
  pub highest_time : ℕ
  pub last_transit : ℕ
  pub bytes : ℕ
  pub header_bytes : ℕ
  pub bytes_duplicate : ℕ
  pub header_bytes_duplicate : ℕ
  pub bytes_padding : ℕ
  pub header_bytes_padding : ℕ
  pub packets_duplicate : ℕ
  pub packets_padding : ℕ
  pub packets_out_of_order : ℕ
  pub packets_lost : ℕ
  pub packets_lost_overridden : ℕ
  pub frames : ℕ
  pub jitter : J
  pub max_jitter : J
  pub jitter_overridden : J
  pub max_jitter_overridden : J
  pub sn_infos : List SnInfo
  pub sn_info_write_ptr : ℕ
  pub gap_histogram : List ℕ
  pub nacks : ℕ
  pub nack_acks : ℕ
  pub nack_misses : ℕ
  pub nack_repeated : ℕ
  pub plis : ℕ
  pub last_pli : Option ℕ
  pub layer_lock_plis : ℕ
  pub last_layer_lock_pli : Option ℕ
  pub firs : ℕ
  pub last_fir : Option ℕ
  pub key_frames : ℕ
  pub last_key_frame : Option ℕ
  pub rtt : ℕ
  pub max_rtt : ℕ
  pub next_snapshot_id : ℕ
  pub snapshots : List (ℕ × Snapshot J)

module _ {J : Type 0} ⦃f : Float64 J⦄ where
  -- A snapshot as the source makes it: a start, and zeros.
  unfoldable pub new_snapshot : Option ℕ → ℕ → Snapshot J
  new_snapshot start_time ext_start_sn = record {
    start_time = start_time;
    ext_start_sn = ext_start_sn;
    packets_duplicate = 0;
    bytes_duplicate = 0;
    header_bytes_duplicate = 0;
    packets_lost_overridden = 0;
    nacks = 0;
    plis = 0;
    firs = 0;
    max_rtt = 0;
    max_jitter = f.of_uint32 0;
    max_jitter_overridden = f.of_uint32 0;
  }

  unfoldable pub new_rtp_stats : RtpStatsParams → RtpStats J
  new_rtp_stats params = record {
    params = params;
    initialized = false;
    resync_on_next_packet = false;
    start_time = none;
    end_time = none;
    ext_start_sn = 0;
    highest_sn = 0;
    cycles = 0;
    ext_highest_sn_overridden = 0;
    last_rr_time = none;
    last_rr = none;
    highest_ts = 0;
    highest_time = 0;
    last_transit = 0;
    bytes = 0;
    header_bytes = 0;
    bytes_duplicate = 0;
    header_bytes_duplicate = 0;
    bytes_padding = 0;
    header_bytes_padding = 0;
    packets_duplicate = 0;
    packets_padding = 0;
    packets_out_of_order = 0;
    packets_lost = 0;
    packets_lost_overridden = 0;
    frames = 0;
    jitter = f.of_uint32 0;
    max_jitter = f.of_uint32 0;
    jitter_overridden = f.of_uint32 0;
    max_jitter_overridden = f.of_uint32 0;
    sn_infos = replicate sn_info_size no_info;
    sn_info_write_ptr = 0;
    gap_histogram = replicate gap_histogram_num_bins 0;
    nacks = 0;
    nack_acks = 0;
    nack_misses = 0;
    nack_repeated = 0;
    plis = 0;
    last_pli = none;
    layer_lock_plis = 0;
    last_layer_lock_pli = none;
    firs = 0;
    last_fir = none;
    key_frames = 0;
    last_key_frame = none;
    rtt = 0;
    max_rtt = 0;
    next_snapshot_id = first_snapshot_id;
    snapshots = [];
  }
