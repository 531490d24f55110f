-- ===== src/Buffer/Calc.antt =====
-- `calc` of pkg/buffer/buffer.go. `none` is a panic.
use go_ortc.Base.{
  ℕ, Bool, true, ◌&&◌, ◌||◌, Option, none, some, List, [], ◌∷◌, ◌++◌, ◌==◌, length, if◌then◌else◌,
}
use go_ortc.Rtp.{RtpPacket, Pion}
use go_ortc.RtpStats.Types.{Float64}
use go_ortc.RtpStats.Reports.{ReportFloats}
use go_ortc.FrameRate.{Float32, Calculator, Packet, recv_packet}
use go_ortc.AudioLevel.{Float}
use go_ortc.Buffer.Types.{Library, StreamPacket, fps_changed, Made}
use go_ortc.Buffer.Steps.{
  and_then, when, count_key_frame, get_ext_packet, update_stream_state, process_header_extensions,
  do_nacks, do_reports,
}

-- `FrameRateCalculatorVP8` is given the packet as `Packet`.
abbrev pub frame_of : StreamPacket → Packet
frame_of ep = record {
  sequence_number = ep.packet.header.sequence_number;
  timestamp = ep.packet.header.timestamp;
  temporal = ep.temporal;
  picture_id = elim ep.payload [ none ↦ none | some v ↦ some v.picture_id ];
}

module _ {J A F B N : Type 0} ⦃f : Float64 J⦄ ⦃a : Float A⦄ ⦃g : Float32 F⦄ (p : Pion)
    (lib : Library B N) (floats : ReportFloats J F) (now : ℕ) where
  abbrev pub with_rate : Made J A F B N → Calculator F × Bool → Made J A F B N
  with_rate (b, calls) (c, received) =
      if received && c.completed
      then (
        record b { frame_rate_calculator = some c; frame_rate_calculated = true },
        calls ++ when b.on_fps_changed fps_changed,
      )
      else (record b { frame_rate_calculator = some c }, calls)

  unfoldable pub do_fps_calc : StreamPacket → Made J A F B N → Option (Made J A F B N)
  do_fps_calc ep (b, calls) =
      if b.paused || (b.frame_rate_calculated || length ep.packet.payload == 0)
      then some (b, calls)
      else elim b.frame_rate_calculator [
        | none ↦ some (b, calls)
        | some c ↦ and_then (recv_packet c (frame_of ep)) (λ r. some (with_rate (b, calls) r))
      ]

  abbrev pub push_back : Made J A F B N → Option StreamPacket → Option (Made J A F B N)
  push_back m none = some m
  push_back (b, calls) (some ep) =
      let counted = count_key_frame p lib floats now ep b in
      do_fps_calc ep (record counted { ext_packets = b.ext_packets ++ (ep ∷ []) }, calls)

  -- `calc` behind the bucket, for a packet that the bucket refused: it is counted, and not forwarded.
  abbrev pub calc_refused :
      Made J A F B N → (arrival : ℕ) → Option RtpPacket → Option (Made J A F B N)
  calc_refused m arrival none = some m
  calc_refused m arrival (some pkt) =
      and_then (update_stream_state p lib floats now pkt arrival m)
        (λ t. process_header_extensions p lib floats now pkt arrival t)

  abbrev pub calc_packet :
      Made J A F B N → (arrival : ℕ) → Option RtpPacket → Option (Made J A F B N)
  calc_packet m arrival none = some m
  calc_packet m arrival (some pkt) =
      and_then (update_stream_state p lib floats now pkt arrival m) (λ t.
        and_then (process_header_extensions p lib floats now pkt arrival t) (λ v.
          let u = do_reports p lib floats now arrival (do_nacks p lib floats now v) in
          and_then (get_ext_packet u.0.mime pkt arrival) (λ o. push_back u o)))

  abbrev pub calc_added :
      Made J A F B N
      → (bytes : List ℕ) (arrival : ℕ) → B × Option (List ℕ)
      → Option (Made J A F B N)
  calc_added (b, calls) bytes arrival (q, none) =
      calc_refused (record b { bucket = some q }, calls) arrival (p.unmarshal_packet bytes)
  calc_added (b, calls) bytes arrival (q, some stored) =
      calc_packet (record b { bucket = some q }, calls) arrival (p.unmarshal_packet stored)

  -- There is no bucket for a codec that is neither audio nor video: the call panics.
  unfoldable pub calc_bytes :
      (bytes : List ℕ) (arrival : ℕ) → Made J A F B N → Option (Made J A F B N)
  calc_bytes bytes arrival (b, calls) = elim b.bucket [
    | none ↦ none
    | some q ↦ calc_added (b, calls) bytes arrival (lib.add_packet q bytes)
  ]
