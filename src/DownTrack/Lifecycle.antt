-- ===== src/DownTrack/Lifecycle.antt =====
-- The other methods of pkg/rtc/downtrack.go: binding, muting and closing.
use go_ortc.Base.{
  ℕ, Bool, true, false, ◌&&◌, ◌||◌, not, Option, none, some, List, [], ◌∷◌, ◌++◌, if◌then◌else◌,
  take, length,
}
use go_ortc.RtpStats.Types.{Float64, new_rtp_stats}
use go_ortc.RtpStats.Counters.{stop, new_snapshot_id}
use go_ortc.Rtp.{ExtensionParameter}
use go_ortc.Codecs.{CodecParameters, text_eq, codec_parameters_fuzzy_search}
use go_ortc.Sequencer.{Sequencer, new_sequencer}
use go_ortc.DownTrack.Types.{
  DownTrack, CodecType, audio, video, unknown, Effect, close_reader, called_on_close,
  called_on_bind, Outcome, quiet,
}

abbrev pub max_padding : ℕ
max_padding = 2000

-- What `Bind` reads of the context that pion gives: `has_reader` is whether the factory has an RTCP
-- reader for the ssrc.
pub record TrackLocalContext : Type 0 where
  pub ssrc : ℕ
  pub codec_parameters : List CodecParameters
  pub header_extensions : List ExtensionParameter
  pub has_reader : Bool

abbrev pub when_set : Bool → Effect → List Effect
when_set true e = e ∷ []
when_set false e = []

abbrev pub sequencer_for : CodecType → (max_track now : ℕ) → Option Sequencer → Option Sequencer
sequencer_for video max_track now old = some (new_sequencer max_track max_padding now)
sequencer_for audio max_track now old = old
sequencer_for unknown max_track now old = old

module _ {J : Type 0} where
  -- A failed search is `ErrUnsupportedCodec`.
  unfoldable pub bind_codec :
      DownTrack J → TrackLocalContext → (now : ℕ) → Option CodecParameters → Outcome J
  bind_codec d t now none = record { track = d; effects = []; success = false }
  bind_codec d t now (some codec) = record {
    track = record d {
      ssrc = t.ssrc;
      payload_type = codec.payload_type;
      sync_required = true;
      enabled = true;
      has_reader = t.has_reader || d.has_reader;
      sequencer = sequencer_for d.kind d.max_track now d.sequencer;
      bound = true;
      enabled_headers = t.header_extensions;
    };
    effects = when_set d.on_bind called_on_bind;
    success = true;
  }

  -- `needle` is the track's own codec; `now` is in milliseconds.
  unfoldable pub bind :
      DownTrack J → (needle : CodecParameters) → TrackLocalContext → (now : ℕ) → Outcome J
  bind d needle t now = bind_codec d t now (codec_parameters_fuzzy_search needle t.codec_parameters)

  abbrev pub unbind : DownTrack J → Outcome J
  unbind d = quiet (record d { bound = false })

  -- Whether `val` mutes: nothing changes if the track is already as asked.
  unfoldable pub mute : DownTrack J → (val : Bool) → Outcome J
  mute d val =
      if (d.enabled && not val) || (not d.enabled && val)
      then quiet d
      else quiet (record d { enabled = not val; sync_required = true })

  unfoldable pub close : DownTrack J → (now : ℕ) → Outcome J
  close d now = if not d.bound then quiet d else record {
    track = record d { bound = false; rtp_stats = stop d.rtp_stats now };
    effects = when_set d.has_reader close_reader ++ when_set d.on_close_handler called_on_close;
    success = true;
  }

  -- The setters of the handlers.
  abbrev pub handle_close : DownTrack J → DownTrack J
  handle_close d = record d { on_close_handler = true }

  abbrev pub handle_bind : DownTrack J → DownTrack J
  handle_bind d = record d { on_bind = true }

  abbrev pub handle_transport_cc : DownTrack J → DownTrack J
  handle_transport_cc d = record d { on_transport_cc_feedback = true }

  abbrev pub handle_remb_feedback : DownTrack J → DownTrack J
  handle_remb_feedback d = record d { on_remb_feedback = true }

-- `strings.HasPrefix`
abbrev pub has_prefix : (text prefix : List ℕ) → Bool
has_prefix text prefix = text_eq (take (length prefix) text) prefix

-- `Kind`: by the prefixes `audio/` and `video/` of the codec's mime type.
unfoldable pub kind_of : (mime_type : List ℕ) → CodecType
kind_of mime_type =
    if has_prefix mime_type (97 ∷ 117 ∷ 100 ∷ 105 ∷ 111 ∷ 47 ∷ [])
    then audio
    else if has_prefix mime_type (118 ∷ 105 ∷ 100 ∷ 101 ∷ 111 ∷ 47 ∷ [])
    then video
    else unknown

module _ {J : Type 0} ⦃f : Float64 J⦄ where
  -- `NewDownTrack`, for a codec of this kind and clock rate, at the mid in decimal digits.
  unfoldable pub new_down_track :
      (kind : CodecType) (clock_rate : ℕ) (mid : List ℕ) (max_track now : ℕ) → DownTrack J
  new_down_track kind clock_rate mid max_track now = record {
    bound = false;
    ssrc = 0;
    mid = mid;
    max_track = max_track;
    payload_type = 0;
    sequencer = none;
    started = false;
    kind = kind;
    has_reader = false;
    enabled = false;
    sync_required = false;
    sn_offset = 0;
    ts_offset = 0;
    last_sn = 0;
    last_ts = 0;
    twcc_sn = 0;
    enabled_headers = [];
    rtp_stats =
        (new_snapshot_id
          (new_rtp_stats (record { clock_rate = clock_rate; is_receiver_report_driven = true }))
          now).0;
    on_close_handler = false;
    on_bind = false;
    on_transport_cc_feedback = false;
    on_remb_feedback = false;
  }
