-- ===== src/Buffer/Methods.antt =====
-- The methods of pkg/buffer/buffer.go. `none` is a panic.
use go_ortc.Base.{
  ℕ, ◌%◌, Bool, true, false, not, Option, none, some, List, [], ◌∷◌, ◌++◌, if◌then◌else◌,
}
use go_ortc.Rtp.{
  Pion, ExtensionParameter, sdes_mid, abs_send_time, transport_cc, video_orientation, audio_level,
  other_uri,
}
use go_ortc.RtpStats.Types.{Float64, new_rtp_stats}
use go_ortc.RtpStats.Counters.{new_snapshot_id}
use go_ortc.RtpStats.Reports.{ReportFloats}
use go_ortc.FrameRate.{Float32, Calculator, new_calculator}
use go_ortc.AudioLevel.{Float, new_audio_level}
use go_ortc.DownTrack.Types.{CodecType, audio, video, unknown}
use go_ortc.Buffer.Types.{
  Mime, vp8, h264, av1, other_video, red, other_audio, other_mime, Library, Buffer, Made,
}
use go_ortc.Buffer.Steps.{and_then}
use go_ortc.Buffer.Calc.{calc_bytes}

-- The types of RTCP feedback that `Bind` tests for.
pub data Feedback : Type 0 where
  goog_remb transport_wide_cc nack other_feedback : Feedback

-- What `Bind` reads of the parameters: those of the first codec, and the header extensions. Without a
-- codec it panics, which is left out.
pub record BindParams : Type 0 where
  pub mime : Mime
  pub clock_rate : ℕ
  pub feedback : List Feedback
  pub header_extensions : List ExtensionParameter

abbrev pub codec_type_of : Mime → CodecType
codec_type_of vp8 = video
codec_type_of h264 = video
codec_type_of av1 = video
codec_type_of other_video = video
codec_type_of red = audio
codec_type_of other_audio = audio
codec_type_of other_mime = unknown

-- The last id of the audio level extension; 0 for none.
abbrev pub audio_level_id : (so_far : ℕ) → List ExtensionParameter → ℕ
audio_level_id so_far [] = so_far
audio_level_id so_far (ext ∷ exts) = elim ext.uri [
  | audio_level ↦ audio_level_id (ext.id % 256) exts
  | sdes_mid ↦ audio_level_id so_far exts
  | abs_send_time ↦ audio_level_id so_far exts
  | transport_cc ↦ audio_level_id so_far exts
  | video_orientation ↦ audio_level_id so_far exts
  | other_uri ↦ audio_level_id so_far exts
]

abbrev pub has_audio_level : List ExtensionParameter → Bool
has_audio_level [] = false
has_audio_level (ext ∷ exts) = elim ext.uri [
  | audio_level ↦ true
  | sdes_mid ↦ has_audio_level exts
  | abs_send_time ↦ has_audio_level exts
  | transport_cc ↦ has_audio_level exts
  | video_orientation ↦ has_audio_level exts
  | other_uri ↦ has_audio_level exts
]

-- The first id of the transport-wide extension, or the old one.
abbrev pub twcc_id : (old : ℕ) → List ExtensionParameter → ℕ
twcc_id old [] = old
twcc_id old (ext ∷ exts) = elim ext.uri [
  | transport_cc ↦ ext.id % 256
  | sdes_mid ↦ twcc_id old exts
  | abs_send_time ↦ twcc_id old exts
  | audio_level ↦ twcc_id old exts
  | video_orientation ↦ twcc_id old exts
  | other_uri ↦ twcc_id old exts
]

abbrev pub calculator_for :
    {F : Type 0} ⦃g : Float32 F⦄ → Mime → (clock_rate : ℕ) → Option (Calculator F)
calculator_for vp8 clock_rate = some (new_calculator clock_rate)
calculator_for h264 clock_rate = none
calculator_for av1 clock_rate = none
calculator_for other_video clock_rate = none
calculator_for red clock_rate = none
calculator_for other_audio clock_rate = none
calculator_for other_mime clock_rate = none

abbrev pub or_old : {A : Type 0} → Option A → Option A → Option A
or_old none new = new
or_old (some a) new = some a

-- Whether the loop returns from `Bind`, for a NACK of the codec audio/red.
abbrev pub is_red : Mime → Bool
is_red red = true
is_red vp8 = false
is_red h264 = false
is_red av1 = false
is_red other_video = false
is_red other_audio = false
is_red other_mime = false

module _ {B N : Type 0} (lib : Library B N) where
  abbrev pub bucket_for : CodecType → Option B → Option B
  bucket_for audio old = some (lib.new_bucket audio)
  bucket_for video old = some (lib.new_bucket video)
  bucket_for unknown old = old

module _ {J A F B N : Type 0} where
  abbrev pub twcc_for : CodecType → Buffer J A F B N → List ExtensionParameter → Buffer J A F B N
  twcc_for video b exts = record b { twcc_ext = twcc_id b.twcc_ext exts }
  twcc_for audio b exts = b
  twcc_for unknown b exts = b

module _ {J A F B N : Type 0} (lib : Library B N) where
  -- The loop over the feedback; the second result is whether it reaches its end.
  unfoldable pub set_feedback :
      List Feedback → List ExtensionParameter → Buffer J A F B N → Buffer J A F B N × Bool
  set_feedback [] exts b = (b, true)
  set_feedback (goog_remb ∷ fbs) exts b = set_feedback fbs exts b
  set_feedback (transport_wide_cc ∷ fbs) exts b =
      set_feedback fbs exts (twcc_for b.codec_type b exts)
  set_feedback (nack ∷ fbs) exts b =
      let rest = set_feedback fbs exts (record b { nacker = some lib.new_nack_queue }) in
      if is_red b.mime then (b, false) else rest
  set_feedback (other_feedback ∷ fbs) exts b = set_feedback fbs exts b

module _ {J A F B N : Type 0} ⦃f : Float64 J⦄ ⦃a : Float A⦄ ⦃g : Float32 F⦄ (lib : Library B N)
    (now : ℕ) where
  -- The lines of `Bind` up to the loop over the feedback.
  abbrev pub set_up : Buffer J A F B N → BindParams → Buffer J A F B N
  set_up b params =
      let fresh =
        new_rtp_stats
          (record { clock_rate = params.clock_rate; is_receiver_report_driven = false }) in
      let (one, rr_id) = new_snapshot_id fresh now in
      let (two, delta_id) = new_snapshot_id one now in
      record b {
        rtp_stats = some two;
        rr_snapshot_id = rr_id;
        delta_stats_snapshot_id = delta_id;
        clock_rate = params.clock_rate;
        last_report = now;
        mime = params.mime;
        audio_level_ext = audio_level_id b.audio_level_ext params.header_extensions;
        audio_level =
            if has_audio_level params.header_extensions
            then some (new_audio_level b.audio_level_params)
            else b.audio_level;
        codec_type = codec_type_of params.mime;
        bucket = bucket_for lib (codec_type_of params.mime) b.bucket;
        frame_rate_calculator =
            or_old b.frame_rate_calculator (calculator_for params.mime params.clock_rate);
      }

module _ {J A F B N : Type 0} ⦃f : Float64 J⦄ ⦃a : Float A⦄ ⦃g : Float32 F⦄ (p : Pion)
    (lib : Library B N) (floats : ReportFloats J F) (now : ℕ) where
  abbrev pub calc_pending : List (List ℕ × ℕ) → Made J A F B N → Option (Made J A F B N)
  calc_pending [] m = some m
  calc_pending ((bytes, arrival) ∷ pending) m =
      and_then (calc_bytes p lib floats now bytes arrival m) (λ t. calc_pending pending t)

  abbrev pub flush : Buffer J A F B N × Bool → Option (Made J A F B N)
  flush (b, false) = some (b, [])
  flush (b, true) =
      and_then (calc_pending b.p_packets (b, []))
        (λ m. some (record m.0 { p_packets = []; bound = true }, m.1))

  unfoldable pub bind_buffer : Buffer J A F B N → BindParams → Option (Made J A F B N)
  bind_buffer b params =
      if b.bound
      then some (b, [])
      else flush
          (set_feedback lib params.feedback params.header_extensions (set_up lib now b params))

  -- `Write`. A closed buffer returns an error and changes nothing.
  unfoldable pub write_packet : Buffer J A F B N → (pkt : List ℕ) → Option (Made J A F B N)
  write_packet b pkt =
      if b.closed
      then some (b, [])
      else if not b.bound
      then some (record b { p_packets = b.p_packets ++ ((pkt, now) ∷ []) }, [])
      else calc_bytes p lib floats now pkt now (b, [])
