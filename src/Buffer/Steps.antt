-- ===== src/Buffer/Steps.antt =====
-- What `calc` of pkg/buffer/buffer.go calls: the statistics, header extensions, NACKs, reports and the
-- look at the payload. `none` is a panic.
use go_ortc.Base.{
  ℕ, zero, suc, ◌+◌, ◌-◌, ◌*◌, ◌/◌, ◌%◌, Bool, true, false, ◌&&◌, not, Option, none, some, List, [],
  ◌∷◌, ◌++◌, ltb, ◌==◌, get_or, length, if◌then◌else◌,
}
use go_ortc.Base.Int.{pos, negsuc}
use go_ortc.Base.Words.{add16, sub16, sub32}
use go_ortc.Rtp.{RtpPacket, Pion, stats_header}
use go_ortc.RtpStats.Types.{RtpStats, RtpFlowState, Float64, ReceptionReport}
use go_ortc.RtpStats.Update.{update}
use go_ortc.RtpStats.Counters.{update_nack, update_key_frame}
use go_ortc.RtpStats.Reports.{ReportFloats, snapshot_rtcp_reception_report}
use go_ortc.Vp8.{Vp8, Parse, ok, err, unmarshal, zero_vp8}
use go_ortc.KeyFrame.{Run, ret, stuck, is_h264_keyframe, is_av1_keyframe}
use go_ortc.FrameRate.{Float32}
use go_ortc.AudioLevel.{Float, observe}
use go_ortc.Buffer.Types.{
  Mime, vp8, h264, av1, other_video, red, other_audio, other_mime, Library, StreamPacket, Buffer,
  Call, nack_feedback, report_feedback, twcc_push, Made,
}

abbrev pub and_then : {A C : Type 0} → Option A → (A → Option C) → Option C
and_then none k = none
and_then (some a) k = k a

-- `ReportDelta`, in ns
abbrev pub report_delta : ℕ
report_delta = 1000000000

abbrev pub when : Bool → Call → List Call
when true c = c ∷ []
when false c = []

-- A packet with no layers, and its payload not looked at.
abbrev pub bare : RtpPacket → (arrival : ℕ) → StreamPacket
bare packet arrival = record {
  packet = packet;
  arrival = arrival;
  spatial = negsuc 0;
  temporal = negsuc 0;
  payload = none;
  key_frame = false;
}

-- What `getExtPacket` makes of a payload: `none` for a panic, and within it `none` for nil.
abbrev pub of_run : StreamPacket → Run Bool → Option (Option StreamPacket)
of_run ep (ret key_frame) = some (some (record ep { key_frame = key_frame }))
of_run ep Run.panic = none
of_run ep stuck = none

abbrev pub of_vp8 : StreamPacket → Parse Vp8 → Option (Option StreamPacket)
of_vp8 ep (ok v) =
    some (some (record ep { key_frame = v.is_key_frame; payload = some (record v { tid = 0 }) }))
of_vp8 ep (err e v) = some none
of_vp8 ep Parse.panic = none

unfoldable pub by_mime : Mime → StreamPacket → (payload : List ℕ) → Option (Option StreamPacket)
by_mime vp8 ep payload = of_vp8 ep (unmarshal zero_vp8 (some payload))
by_mime h264 ep payload = of_run ep (is_h264_keyframe payload)
by_mime av1 ep payload = of_run ep (is_av1_keyframe payload)
by_mime other_video ep payload = some (some ep)
by_mime red ep payload = some (some ep)
by_mime other_audio ep payload = some (some ep)
by_mime other_mime ep payload = some (some ep)

-- `for lost := start; lost != end; lost++`: as many rounds as the distance of the ends.
abbrev pub push_range : {N : Type 0} → (N → ℕ → N) → (rounds lost : ℕ) → N → N
push_range push zero lost q = q
push_range push (suc n) lost q = push_range push n (add16 lost 1) (push q lost)

module _ {B N : Type 0} (lib : Library B N) where
  abbrev pub note_loss : RtpFlowState → N → N
  note_loss flow q =
      if flow.has_loss
      then push_range lib.push_lost (sub16 flow.loss_end_exclusive flow.loss_start_inclusive)
          flow.loss_start_inclusive q
      else q

  abbrev pub nacker_after : Option N → (sn : ℕ) → RtpFlowState → Option N
  nacker_after none sn flow = none
  nacker_after (some q) sn flow = some (note_loss flow (lib.remove q sn))

module _ {J : Type 0} ⦃f : Float64 J⦄ (p : Pion) (now : ℕ) where
  -- The statistics are nil before `Bind`, where the call panics.
  abbrev pub update_stats :
      Option (RtpStats J) → RtpPacket → (arrival : ℕ) → Option (RtpStats J × RtpFlowState)
  update_stats none pkt arrival = none
  update_stats (some r) pkt arrival =
      some (update r (stats_header p pkt.header) (length pkt.payload) pkt.padding_size arrival now)

abbrev pub get_ext_packet : Mime → RtpPacket → (arrival : ℕ) → Option (Option StreamPacket)
get_ext_packet mime pkt arrival =
    if length pkt.payload == 0
    then some (some (bare pkt arrival))
    else by_mime mime (record (bare pkt arrival) { temporal = pos 0 }) pkt.payload

module _ {J A F B N : Type 0} ⦃f : Float64 J⦄ ⦃a : Float A⦄ ⦃g : Float32 F⦄ (p : Pion)
    (lib : Library B N) (floats : ReportFloats J F) (now : ℕ) where
  unfoldable pub update_stream_state :
      RtpPacket → (arrival : ℕ) → Made J A F B N → Option (Made J A F B N)
  update_stream_state pkt arrival (b, calls) =
      and_then (update_stats p now b.rtp_stats pkt arrival) (λ r. some (
        record b {
          rtp_stats = some r.0;
          nacker = nacker_after lib b.nacker pkt.header.sequence_number r.1;
        },
        calls,
      ))

  -- The branch for a level that was read: `duration` is in ms, and is not positive for a timestamp
  -- that is not ahead. The observer is nil only if there is no id of the extension. A
  -- clock rate of 0, for which the division panics, is left out.
  abbrev pub observe_level : Buffer J A F B N → (timestamp level : ℕ) → Buffer J A F B N
  observe_level b timestamp level =
      let duration = (timestamp - b.latest_ts_for_audio_level) * 1000 / b.clock_rate in
      let observed = record b {
        audio_level = elim b.audio_level [
          | none ↦ none
          | some l ↦ some (observe l level (duration % 4294967296))
        ];
        latest_ts_for_audio_level = timestamp;
      } in
      if ltb (sub32 timestamp b.latest_ts_for_audio_level) 2147483648
      then if ltb 0 duration then observed else record b { latest_ts_for_audio_level = timestamp }
      else b

  abbrev pub take_level : Buffer J A F B N → (timestamp : ℕ) → Option ℕ → Buffer J A F B N
  take_level b timestamp none = b
  take_level b timestamp (some level) = observe_level b timestamp level

  abbrev pub audio_extension : Buffer J A F B N → RtpPacket → Buffer J A F B N
  audio_extension b pkt =
      let ts = pkt.header.timestamp in
      let started = if b.latest_ts_for_audio_level_initialized then b else record b {
        latest_ts_for_audio_level_initialized = true;
        latest_ts_for_audio_level = ts;
      } in
      let value = p.get_extension pkt.header b.audio_level_ext in
      if b.audio_level_ext == 0
      then b
      else if length value == 0
      then started
      else take_level started ts (lib.unmarshal_audio_level value)

  -- The number is the first two bytes of the slice of the extension, up to its capacity: behind a
  -- shorter one the bytes that follow in memory are read, and where there are none the call panics.
  abbrev pub twcc_calls : Buffer J A F B N → RtpPacket → (arrival : ℕ) → Option (List Call)
  twcc_calls b pkt arrival =
      let value = p.get_extension pkt.header b.twcc_ext in
      let slice = value ++ lib.behind pkt.header b.twcc_ext in
      let number = get_or slice 0 0 * 256 + get_or slice 1 0 in
      if b.has_twcc && (not (b.twcc_ext == 0) && not (length value == 0))
      then if ltb (length slice) 2
        then none
        else some (twcc_push number arrival pkt.header.marker ∷ [])
      else some []

  unfoldable pub process_header_extensions :
      RtpPacket → (arrival : ℕ) → Made J A F B N → Option (Made J A F B N)
  process_header_extensions pkt arrival (b, calls) =
      and_then (twcc_calls b pkt arrival) (λ more. some (audio_extension b pkt, calls ++ more))

  abbrev pub nack_pairs : Made J A F B N → N × (List (ℕ × ℕ) × ℕ) → Made J A F B N
  nack_pairs (b, calls) (q, ([], n)) = (record b { nacker = some q }, calls)
  nack_pairs (b, calls) (q, (pair ∷ pairs, n)) = (
    record b {
      nacker = some q;
      rtp_stats = elim b.rtp_stats [ none ↦ none | some r ↦ some (update_nack r (n % 4294967296)) ];
    },
    calls ++ when b.on_rtcp_feedback (nack_feedback (pair ∷ pairs)),
  )

  unfoldable pub do_nacks : Made J A F B N → Made J A F B N
  do_nacks (b, calls) = elim b.nacker [
    | none ↦ (b, calls)
    | some q ↦ nack_pairs (b, calls) (lib.pairs q now)
  ]

  abbrev pub report_calls : Made J A F B N → RtpStats J × Option ReceptionReport → Made J A F B N
  report_calls (b, calls) (r, none) = (record b { rtp_stats = some r }, calls)
  report_calls (b, calls) (r, some report) =
      (record b { rtp_stats = some r }, calls ++ when b.on_rtcp_feedback (report_feedback report))

  unfoldable pub do_reports : (arrival : ℕ) → Made J A F B N → Made J A F B N
  do_reports arrival (b, calls) =
      let reported = record b { last_report = arrival } in
      if ltb arrival (b.last_report + report_delta) then (b, calls) else elim b.rtp_stats [
        | none ↦ (reported, calls)
        | some r ↦
            report_calls (reported, calls)
              (snapshot_rtcp_reception_report floats r b.sr_data b.media_ssrc
                b.last_fraction_lost_to_report b.rr_snapshot_id now)
      ]

  abbrev pub count_key_frame : StreamPacket → Buffer J A F B N → Buffer J A F B N
  count_key_frame ep b =
      if ep.key_frame
      then record b {
        rtp_stats = elim b.rtp_stats [ none ↦ none | some r ↦ some (update_key_frame r 1 now) ];
      }
      else b
