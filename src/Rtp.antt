-- ===== src/Rtp.antt =====
-- What pkg/rtc and pkg/buffer read and write of pion's RTP types, and the functions of pion that they
-- call, as a parameter.
use go_ortc.Base.{ℕ, Bool, Option, List}
use go_ortc.RtpStats.Types.{Header}

-- `rtp.Header`, less the fields that the sources neither read nor write.
pub record RtpHeader : Type 0 where
  pub payload_type : ℕ
  pub ssrc : ℕ
  pub sequence_number : ℕ
  pub timestamp : ℕ
  pub marker : Bool
  pub extension : Bool
  pub extension_profile : ℕ
  pub extensions : List (ℕ × List ℕ)

-- `rtp.Packet`
pub record RtpPacket : Type 0 where
  pub header : RtpHeader
  pub payload : List ℕ
  pub padding_size : ℕ

-- The URIs of header extensions that the sources test for.
pub data Uri : Type 0 where
  sdes_mid abs_send_time transport_cc video_orientation audio_level other_uri : Uri

-- `webrtc.RTPHeaderExtensionParameter`
pub record ExtensionParameter : Type 0 where
  pub uri : Uri
  pub id : ℕ

-- The functions of pion. `none` is an error; an extension that is not there is the empty list.
pub record Pion : Type 0 where
  pub get_extension : RtpHeader → ℕ → List ℕ
  pub set_extension : RtpHeader → ℕ → List ℕ → Option RtpHeader
  pub marshal_size : RtpHeader → ℕ
  pub marshal_send_time : (now : ℕ) → Option (List ℕ)
  pub marshal_transport_cc : (sequence : ℕ) → Option (List ℕ)
  pub unmarshal_packet : List ℕ → Option RtpPacket

-- What the statistics read of a header.
abbrev pub stats_header : Pion → RtpHeader → Header
stats_header p h = record {
  sequence_number = h.sequence_number;
  timestamp = h.timestamp;
  marker = h.marker;
  marshal_size = p.marshal_size h;
}
