-- ===== src/Buffer/Tests.antt =====
-- Runs of a receive buffer, and its theorems at concrete inputs, with lists of numbers in place of the
-- bucket and the queue of NACKs.
use go_ortc.Base.{
  get_or, Option, none, some, ℕ, ◌+◌, ◌-◌, ◌*◌, ◌≡◌, refl, true, false, none, some, List, [], ◌∷◌,
  ltb, leb, arith,
}
use go_ortc.Rtp.{Pion}
use go_ortc.RtpStats.Types.{RtpStats, Float64, new_rtp_stats}
use go_ortc.RtpStats.Reports.{ReportFloats}
use go_ortc.RtpStats.Counters.{update_pli_and_time}
use go_ortc.FrameRate.{Float32}
use go_ortc.AudioLevel.{Float}
use go_ortc.DownTrack.Types.{audio}
use go_ortc.Buffer.Types.{Made, red, Library, Buffer, pli_feedback}
use go_ortc.Buffer.Steps.{and_then}
use go_ortc.Buffer.Methods.{goog_remb, nack, BindParams, bind_buffer}
use go_ortc.Buffer.Reads.{send_pli}
use go_ortc.Buffer.Steps.{update_stream_state, process_header_extensions, do_nacks, do_reports}
use go_ortc.Buffer.Calc.{do_fps_calc, calc_bytes}
use go_ortc.Buffer.Handed.{Grows, calc_bytes-Grows}
use go_ortc.Buffer.Unbound.{write_each, Silent, bind_buffer-Silent}
use go_ortc.Buffer.Throttle.{send_pli-Throttled}

instance whole64 : Float64 ℕ
whole64 = record {
  of_int32 = λ n. n;
  of_uint32 = λ n. n;
  add = λ a b. a + b;
  sub = λ a b. a;
  mul = λ a b. b;
  div = λ a b. a;
  ltb = ltb;
}

instance whole32 : Float32 ℕ
whole32 = record { of_uint = λ n. n; mul = λ a b. a; div = λ a b. b; ltb = ltb }

instance whole : Float ℕ
whole = record {
  of_uint = λ n. n;
  neg_inv20 = 1;
  add = λ a b. a + b;
  sub = λ a b. a - b;
  mul = λ a b. a * b;
  div = λ a b. a;
  log10 = λ a. a;
  pow10 = λ a. a + 10;
  leq = leb;
}

abbrev floats : ReportFloats ℕ ℕ
floats = record {
  of_uint32 = λ n. n;
  div = λ a b. a;
  mul = λ a b. b;
  to_uint8 = λ n. n;
  to_uint32 = λ n. n;
}

abbrev small : Pion
small = record {
  get_extension = λ h id. [];
  set_extension = λ h id value. none;
  marshal_size = λ h. 12;
  marshal_send_time = λ now. none;
  marshal_transport_cc = λ sequence. none;
  unmarshal_packet = λ b. none;
}

abbrev lists : Library (List (List ℕ)) (List ℕ)
lists = record {
  new_bucket = λ k. [];
  add_packet = λ q b. (b ∷ q, some b);
  get_packet = λ q size sn. none;
  new_nack_queue = [];
  remove = λ q sn. q;
  push_lost = λ q sn. sn ∷ q;
  pairs = λ q now. (q, ([], 0));
  set_nack_rtt = λ q rtt. q;
  unmarshal_audio_level = λ value. none;
  behind = λ h id. [];
}

abbrev waiting : Buffer ℕ ℕ ℕ (List (List ℕ)) (List ℕ)
waiting = record {
  bucket = none;
  nacker = none;
  codec_type = audio;
  ext_packets = [];
  p_packets = ((1 ∷ 2 ∷ []), 5) ∷ [];
  media_ssrc = 7;
  clock_rate = 0;
  last_report = 0;
  twcc_ext = 0;
  audio_level_ext = 0;
  bound = false;
  closed = false;
  mime = red;
  latest_ts_for_audio_level_initialized = false;
  latest_ts_for_audio_level = 0;
  has_twcc = false;
  audio_level_params = record {
    active_level = 0;
    min_percentile = 0;
    observe_duration = 0;
    smooth_intervals = 0;
  };
  audio_level = none;
  last_packet_read = 0;
  pli_throttle = 500000000;
  rtp_stats = none;
  sr_data = none;
  rr_snapshot_id = 0;
  delta_stats_snapshot_id = 0;
  last_fraction_lost_to_report = 0;
  on_close = false;
  on_rtcp_feedback = true;
  on_fps_changed = false;
  paused = false;
  frame_rate_calculator = none;
  frame_rate_calculated = false;
}

abbrev red_params : BindParams
red_params = record {
  mime = red;
  clock_rate = 48000;
  feedback = goog_remb ∷ nack ∷ [];
  header_extensions = [];
}

bind_buffer-Silent_example : Silent small lists floats [] (((1 ∷ 2 ∷ []), 5) ∷ ((3 ∷ []), 8) ∷ []) (
    and_then
      (bind_buffer small lists floats 6 waiting red_params)
      (λ m. write_each small lists floats (((3 ∷ []), 8) ∷ []) m))
bind_buffer-Silent_example =
    bind_buffer-Silent small lists floats waiting red_params 6 (((3 ∷ []), 8) ∷ []) refl refl refl
      refl

abbrev running : RtpStats ℕ
running =
    record (new_rtp_stats (record { clock_rate = 90000; is_receiver_report_driven = false })) {
      end_time = none;
      last_pli = none;
    }

abbrev streaming : Buffer ℕ ℕ ℕ (List (List ℕ)) (List ℕ)
streaming = record waiting { bound = true; rtp_stats = some running }

abbrev asked_once : Buffer ℕ ℕ ℕ (List (List ℕ)) (List ℕ)
asked_once = record streaming { rtp_stats = some (update_pli_and_time running 1 1000000000) }

send_pli-Throttled_example :
    (send_pli streaming false 1000000000 ≡ some (asked_once, pli_feedback ∷ []))
    × ((send_pli asked_once false 1200000000 ≡ some (asked_once, []))
        × (send_pli asked_once true 1200000000
            ≡ some (
              record asked_once {
                rtp_stats =
                    some
                      (update_pli_and_time (update_pli_and_time running 1 1000000000) 1 1200000000);
              },
              pli_feedback ∷ [],
            )))
send_pli-Throttled_example =
    send_pli-Throttled streaming running false 1000000000 1200000000 refl refl refl (omega arith)

-- A pion that reads every packet as one with the first byte as its number, and no payload.
abbrev numbering : Pion
numbering = record small {
  unmarshal_packet = λ b. some (record {
    header = record {
      payload_type = 96;
      ssrc = 7;
      sequence_number = get_or b 0 0;
      timestamp = 0;
      marker = false;
      extension = false;
      extension_profile = 0;
      extensions = [];
    };
    payload = [];
    padding_size = 0;
  });
}

abbrev receiving : Buffer ℕ ℕ ℕ (List (List ℕ)) (List ℕ)
receiving = record streaming { bucket = some []; nacker = none }

abbrev received : Option (Made ℕ ℕ ℕ (List (List ℕ)) (List ℕ))
received = calc_bytes numbering lists floats 9 (3 ∷ 4 ∷ []) 8 (receiving, [])

abbrev or_receiving :
    Option (Made ℕ ℕ ℕ (List (List ℕ)) (List ℕ)) → Made ℕ ℕ ℕ (List (List ℕ)) (List ℕ)
or_receiving none = (receiving, [])
or_receiving (some m) = m

received_made : received ≡ some (or_receiving received)
unfolding calc_bytes update_stream_state process_header_extensions do_nacks do_reports do_fps_calc
received_made = refl

calc_bytes-Grows_example :
    Grows numbering [] (some (3 ∷ 4 ∷ [])) (or_receiving received).0.ext_packets
calc_bytes-Grows_example =
    calc_bytes-Grows numbering lists floats 9 receiving [] [] (3 ∷ 4 ∷ []) 8 (or_receiving received)
      refl received_made
