-- ===== src/Buffer/Reads.antt =====
-- Reading from the buffer of pkg/buffer/buffer.go, and its other methods. `none` is a panic.
use go_ortc.Base.{
  ℕ, ◌+◌, Bool, true, ◌&&◌, not, Option, none, some, List, [], ◌∷◌, ltb, get_elem?, length, take,
  drop, if◌then◌else◌,
}
use go_ortc.Rtp.{Pion}
use go_ortc.RtpStats.Types.{RtpStats}
use go_ortc.RtpStats.Counters.{stop, update_pli_and_time}
use go_ortc.RtpStats.Reports.{SenderReportData}
use go_ortc.Buffer.Types.{Library, StreamPacket, Buffer, pli_feedback, called_on_close_of, Made}
use go_ortc.Buffer.Steps.{when}

-- What one pass of the loops of `Read` and `ReadExtended` comes to: `wait` sleeps and goes round.
pub data Reading (R : Type 0) : Type 0 where
  got : R → Reading R
  eof too_small wait : Reading R

-- The time since Go's zero time is what `UnixNano` makes of it in 64 bits.
abbrev pub time_since_last_pli : Option ℕ → (now : ℕ) → (throttle : ℕ) → Bool
time_since_last_pli none now throttle = ltb (now + 6795364578871345152) throttle
time_since_last_pli (some t) now throttle = ltb now (t + throttle)

abbrev pub stopped_stats : {J : Type 0} → Option (RtpStats J) → (now : ℕ) → Option (RtpStats J)
stopped_stats none now = none
stopped_stats (some r) now = some (stop r now)

-- The report that `SetRtcpSenderReportData` keeps: an older one is dropped. The smoothed one-way delay
-- beside it, which the modelled methods never read, is left out.
abbrev pub newer_report : Option SenderReportData → SenderReportData → Option SenderReportData
newer_report none sr = some sr
newer_report (some old) sr = if ltb sr.ntp_timestamp old.ntp_timestamp then some old else some sr

module _ (p : Pion) where
  -- `patchExtPacket`: the payload is cut out of the bytes in the caller's slice.
  abbrev pub patch : StreamPacket → Option (List ℕ) → Option StreamPacket
  patch ep none = none
  patch ep (some raw) =
      let start = p.marshal_size ep.packet.header in
      let end_ = start + length ep.packet.payload in
      if ltb (length raw) end_
      then none
      else some (record ep {
        packet = record ep.packet { payload = take (length ep.packet.payload) (drop start raw) };
      })

module _ {J A F B N : Type 0} where
  -- `Read`, which hands out the pending packets.
  abbrev pub read_pending :
      Buffer J A F B N → (size : ℕ) → Option (List ℕ × ℕ) → Buffer J A F B N × Reading (List ℕ)
  read_pending b size none = (b, wait)
  read_pending b size (some (bytes, arrival)) =
      if ltb size (length bytes)
      then (b, too_small)
      else (record b { last_packet_read = b.last_packet_read + 1 }, got bytes)

  unfoldable pub read : Buffer J A F B N → (size : ℕ) → Buffer J A F B N × Reading (List ℕ)
  read b size =
      if b.closed then (b, eof) else read_pending b size (get_elem? b.p_packets b.last_packet_read)

  -- Whether the last PLI was sent less than the throttle ago.
  abbrev pub throttled : Buffer J A F B N → RtpStats J → (now : ℕ) → Bool
  throttled b r now = time_since_last_pli r.last_pli now b.pli_throttle

  -- A forced call panics where there are no statistics yet.
  abbrev pub send_pli_of :
      Buffer J A F B N → (force : Bool) (now : ℕ) → Option (RtpStats J) → Option (Made J A F B N)
  send_pli_of b force now none = if force then none else some (b, [])
  send_pli_of b force now (some r) =
      if throttled b r now && not force
      then some (b, [])
      else some (
        record b { rtp_stats = some (update_pli_and_time r 1 now) },
        when b.on_rtcp_feedback pli_feedback,
      )

  unfoldable pub send_pli : Buffer J A F B N → (force : Bool) (now : ℕ) → Option (Made J A F B N)
  send_pli b force now = send_pli_of b force now b.rtp_stats

  -- `Close`, whose body runs once.
  unfoldable pub close_buffer : Buffer J A F B N → (now : ℕ) → Made J A F B N
  close_buffer b now = if b.closed then (b, []) else (
    record b { closed = true; rtp_stats = stopped_stats b.rtp_stats now },
    when b.on_close called_on_close_of,
  )

  unfoldable pub set_sender_report_data : Buffer J A F B N → (ntp_time now : ℕ) → Buffer J A F B N
  set_sender_report_data b ntp_time now = elim b.rtp_stats [
    | none ↦ b
    | some r ↦ record b {
      sr_data =
          newer_report b.sr_data (record { ntp_timestamp = ntp_time; arrival_time = some now });
    }
  ]

module _ {J A F B N : Type 0} (p : Pion) (lib : Library B N) where
  -- `getPacket`: `none` for an error. Without a bucket the call panics, which is left out.
  abbrev pub get_packet_of : Buffer J A F B N → (size sn : ℕ) → Option (List ℕ)
  get_packet_of b size sn =
      if b.closed then none else elim b.bucket [ none ↦ none | some q ↦ lib.get_packet q size sn ]

  abbrev pub read_front :
      Buffer J A F B N → (size : ℕ) → List StreamPacket → Buffer J A F B N × Reading StreamPacket
  read_front b size [] = (record b { ext_packets = [] }, wait)
  read_front b size (ep ∷ eps) =
      let rest = read_front b size eps in
      elim (patch p ep (get_packet_of b size ep.packet.header.sequence_number)) [
        | none ↦ rest
        | some patched ↦ (record b { ext_packets = eps }, got patched)
      ]

  unfoldable pub read_extended_of :
      Buffer J A F B N → (size : ℕ) → Buffer J A F B N × Reading StreamPacket
  read_extended_of b size = if b.closed then (b, eof) else read_front b size b.ext_packets
