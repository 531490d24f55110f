-- ===== src/Buffer/Types.antt =====
-- The state of pkg/buffer/buffer.go, and the packages of mediatransportutil that it calls.
use go_ortc.Base.{ℕ, Bool, Option, List}
use go_ortc.Base.Int.{ℤ}
use go_ortc.Rtp.{RtpHeader, RtpPacket}
use go_ortc.RtpStats.Types.{RtpStats, ReceptionReport}
use go_ortc.RtpStats.Reports.{SenderReportData}
use go_ortc.Vp8.{Vp8}
use go_ortc.FrameRate.{Calculator}
use go_ortc.AudioLevel.{AudioLevel, AudioLevelParams}
use go_ortc.DownTrack.Types.{CodecType}

-- What the tests on the mime type in lower case tell.
pub data Mime : Type 0 where
  vp8 h264 av1 other_video red other_audio other_mime : Mime

-- The bucket of packets `B` and the queue of NACKs `N`, of mediatransportutil. `add_packet` returns the
-- packet's bytes, or `none` for an error; `get_packet` is given the size of the caller's slice; `pairs`
-- the packets to NACK now, and how many numbers they hold. `behind` is what stands in memory behind
-- the value of a header extension, up to the capacity of its slice.
pub record Library (B N : Type 0) : Type 0 where
  pub new_bucket : CodecType → B
  pub add_packet : B → List ℕ → B × Option (List ℕ)
  pub get_packet : B → (size sn : ℕ) → Option (List ℕ)
  pub new_nack_queue : N
  pub remove : N → (sn : ℕ) → N
  pub push_lost : N → (sn : ℕ) → N
  pub pairs : N → (now : ℕ) → N × (List (ℕ × ℕ) × ℕ)
  pub set_nack_rtt : N → (rtt : ℕ) → N
  pub unmarshal_audio_level : List ℕ → Option ℕ
  pub behind : RtpHeader → (id : ℕ) → List ℕ

-- `ExtPacket`; `payload` is the VP8 descriptor, if there is one.
pub record StreamPacket : Type 0 where
  pub packet : RtpPacket
  pub arrival : ℕ
  pub spatial : ℤ
  pub temporal : ℤ
  pub payload : Option Vp8
  pub key_frame : Bool

-- The state. `closed` is also whether `closeOnce` has run. The handlers are their presence, and of the
-- array of frame rate calculators only the first place is ever set.
pub record Buffer (J A F B N : Type 0) : Type 0 where
  pub bucket : Option B
  pub nacker : Option N
  pub codec_type : CodecType
  pub ext_packets : List StreamPacket
  pub p_packets : List (List ℕ × ℕ)
  pub media_ssrc : ℕ
  pub clock_rate : ℕ
  pub last_report : ℕ
  pub twcc_ext : ℕ
  pub audio_level_ext : ℕ
  pub bound : Bool
  pub closed : Bool
  pub mime : Mime
  pub latest_ts_for_audio_level_initialized : Bool
  pub latest_ts_for_audio_level : ℕ
  pub has_twcc : Bool
  pub audio_level_params : AudioLevelParams
  pub audio_level : Option (AudioLevel A)
  pub last_packet_read : ℕ
  pub pli_throttle : ℕ
  pub rtp_stats : Option (RtpStats J)
  pub sr_data : Option SenderReportData
  pub rr_snapshot_id : ℕ
  pub delta_stats_snapshot_id : ℕ
  pub last_fraction_lost_to_report : ℕ
  pub on_close : Bool
  pub on_rtcp_feedback : Bool
  pub on_fps_changed : Bool
  pub paused : Bool
  pub frame_rate_calculator : Option (Calculator F)
  pub frame_rate_calculated : Bool

-- The calls that leave the buffer.
pub data Call : Type 0 where
  pli_feedback : Call
  nack_feedback : (pairs : List (ℕ × ℕ)) → Call
  report_feedback : ReceptionReport → Call
  twcc_push : (sn arrival : ℕ) (marker : Bool) → Call
  fps_changed : Call
  called_on_close_of : Call

-- A state with the calls made so far.
abbrev pub Made : (J A F B N : Type 0) → Type 0
Made J A F B N = Buffer J A F B N × List Call
