-- ===== src/DownTrack/Types.antt =====
-- The state of pkg/rtc/downtrack.go, and what its methods do to the world.
use go_ortc.Base.{ℕ, Bool, true, Option, List, []}
use go_ortc.Rtp.{RtpHeader, RtpPacket, ExtensionParameter}
use go_ortc.RtpStats.Types.{RtpStats}
use go_ortc.Sequencer.{Sequencer}

-- `webrtc.RTPCodecType`, as `Kind` computes it from the mime type of the codec.
pub data CodecType : Type 0 where
  audio video unknown : CodecType

-- `buffer.ExtPacket`, as far as the down track reads it.
pub record ExtPacket : Type 0 where
  pub packet : RtpPacket
  pub key_frame : Bool

-- The state. Ids, names, the logger and the pool of buffers are left out; the handlers are their
-- presence, and a call of one is an effect.
pub record DownTrack (J : Type 0) : Type 0 where
  pub bound : Bool
  pub ssrc : ℕ
  pub mid : List ℕ
  pub max_track : ℕ
  pub payload_type : ℕ
  pub sequencer : Option Sequencer
  pub started : Bool
  pub kind : CodecType
  pub has_reader : Bool
  pub enabled : Bool
  pub sync_required : Bool
  pub sn_offset : ℕ
  pub ts_offset : ℕ
  pub last_sn : ℕ
  pub last_ts : ℕ
  pub twcc_sn : ℕ
  pub enabled_headers : List ExtensionParameter
  pub rtp_stats : RtpStats J
  pub on_close_handler : Bool
  pub on_bind : Bool
  pub on_transport_cc_feedback : Bool
  pub on_remb_feedback : Bool

-- A call that leaves the down track: a packet to the peer, a key frame request to the producer's
-- buffer, a handler, the RTCP reader, or `go retransmitPackets`.
pub data Effect : Type 0 where
  written : RtpHeader → (payload : List ℕ) → Effect
  pli_call : (force : Bool) → Effect
  remb_feedback : (bitrate : ℕ) → Effect
  transport_cc_feedback : Effect
  retransmit : List ℕ → Effect
  close_reader : Effect
  called_on_close : Effect
  called_on_bind : Effect

-- What a method returns: the state, the calls in their order, and whether it returned no error.
pub record Outcome (J : Type 0) : Type 0 where
  pub track : DownTrack J
  pub effects : List Effect
  pub success : Bool

abbrev pub quiet : {J : Type 0} → DownTrack J → Outcome J
quiet d = record { track = d; effects = []; success = true }
