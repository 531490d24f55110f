-- ===== src/DownTrack/Forward.antt =====
-- `WriteRTP` of pkg/rtc/downtrack.go and what it calls.
use go_ortc.Base.{
  ℕ, ◌%◌, Bool, true, false, ◌||◌, not, Option, none, some, List, [], ◌∷◌, ltb, ◌==◌, if◌then◌else◌,
  length,
}
use go_ortc.Base.Words.{sub16, add32, sub32}
use go_ortc.Base.Int.{pos}
use go_ortc.Rtp.{
  RtpHeader, RtpPacket, Pion, Uri, ExtensionParameter, sdes_mid, abs_send_time, transport_cc,
  video_orientation, audio_level, other_uri, stats_header,
}
use go_ortc.RtpStats.Types.{Float64}
use go_ortc.RtpStats.Update.{update}
use go_ortc.Sequencer.{Sequencer, push}
use go_ortc.DownTrack.Types.{
  DownTrack, CodecType, audio, video, unknown, ExtPacket, written, pli_call, Outcome, quiet,
}

-- `MidMaxLength` of pkg/rtc/sfu.go
abbrev pub mid_max_length : ℕ
mid_max_length = 8

-- `VideoOrientationExtensionID` of pkg/rtc/mediaengine.go
abbrev pub video_orientation_extension_id : ℕ
video_orientation_extension_id = 8

module _ (p : Pion) where
  -- A case that ends with `break` changes nothing: no error is left from an earlier round.
  abbrev pub set_marshalled : RtpHeader → (id : ℕ) → Option (List ℕ) → Option RtpHeader
  set_marshalled hdr id none = some hdr
  set_marshalled hdr id (some b) = p.set_extension hdr (id % 256) b

  -- A round of the loop of `prepareRTPHeaderForForwarding`: `none` for its error. The counter of
  -- transport-wide numbers is passed along.
  unfoldable pub set_one :
      Uri → (id : ℕ) → (mid value : List ℕ) (now twcc_sn : ℕ) → RtpHeader → ℕ × Option RtpHeader
  set_one sdes_mid id mid value now twcc_sn hdr = (
    twcc_sn,
    if ltb mid_max_length (length mid) then none else p.set_extension hdr (id % 256) mid,
  )
  set_one abs_send_time id mid value now twcc_sn hdr =
      (twcc_sn, set_marshalled hdr id (p.marshal_send_time now))
  set_one transport_cc id mid value now twcc_sn hdr = (
    add32 twcc_sn 1,
    set_marshalled hdr id (p.marshal_transport_cc (sub32 (add32 twcc_sn 1) 1 % 65536)),
  )
  set_one video_orientation id mid value now twcc_sn hdr = (
    twcc_sn,
    if length value == 0
        then some hdr
        else p.set_extension hdr video_orientation_extension_id value,
  )
  set_one audio_level id mid value now twcc_sn hdr = (twcc_sn, some hdr)
  set_one other_uri id mid value now twcc_sn hdr = (twcc_sn, some hdr)

  unfoldable pub set_all :
      (mid value : List ℕ) (now twcc_sn : ℕ)
      → Option RtpHeader
      → List ExtensionParameter
      → ℕ × Option RtpHeader
  set_all mid value now twcc_sn none exts = (twcc_sn, none)
  set_all mid value now twcc_sn (some hdr) [] = (twcc_sn, some hdr)
  set_all mid value now twcc_sn (some hdr) (ext ∷ exts) =
      let (counter, next) = set_one ext.uri ext.id mid value now twcc_sn hdr in
      set_all mid value now counter next exts

module _ {J : Type 0} (p : Pion) where
  -- The header before the loop.
  abbrev pub cleared : DownTrack J → RtpHeader → (ts sn : ℕ) → RtpHeader
  cleared d hdr ts sn = record hdr {
    payload_type = d.payload_type;
    timestamp = ts;
    sequence_number = sn;
    ssrc = d.ssrc;
    extension = false;
    extension_profile = 0;
    extensions = [];
  }

  -- The header, `none` for an error, with the track whose counter has moved.
  unfoldable pub prepare_rtp_header_for_forwarding :
      DownTrack J → RtpHeader → (ts sn now : ℕ) → DownTrack J × Option RtpHeader
  prepare_rtp_header_for_forwarding d hdr ts sn now =
      let numbered = record hdr {
        payload_type = d.payload_type;
        timestamp = ts;
        sequence_number = sn;
        ssrc = d.ssrc;
      } in
      let value = p.get_extension numbered video_orientation_extension_id in
      let (counter, result) =
        set_all p d.mid value now d.twcc_sn (some (cleared d hdr ts sn)) d.enabled_headers in
      (record d { twcc_sn = counter }, result)

abbrev pub needs_key_frame : CodecType → ExtPacket → Bool
needs_key_frame video ext = not ext.key_frame
needs_key_frame audio ext = false
needs_key_frame unknown ext = false

abbrev pub push_to : Option Sequencer → (sn off_sn time_stamp : ℕ) → Option Sequencer
push_to none sn off_sn time_stamp = none
push_to (some s) sn off_sn time_stamp = some (push s sn off_sn time_stamp (pos 0)).0

module _ {J : Type 0} where
  -- The second half of the sync branch.
  unfoldable pub sync : DownTrack J → RtpPacket → DownTrack J
  sync d pkt =
      let offset = record d {
        sn_offset = sub16 (sub16 pkt.header.sequence_number d.last_sn) 1;
        ts_offset = sub32 (sub32 pkt.header.timestamp d.last_ts) 1;
        sync_required = false;
      } in
      if d.last_sn == 0 then record d { sync_required = false } else offset

  -- `if !d.started { … }`
  abbrev pub note_first : DownTrack J → (sn ts : ℕ) → DownTrack J
  note_first d sn ts =
      if d.started then d else record d { last_sn = sn; last_ts = ts; started = true }

-- `writes` is whether the peer's stream takes a packet; `now` is the time of the call.
module _ {J : Type 0} ⦃f : Float64 J⦄ (p : Pion) (writes : RtpHeader → List ℕ → Bool)
    (now : ℕ) where
  abbrev pub write_prepared : DownTrack J × Option RtpHeader → (payload : List ℕ) → Outcome J
  write_prepared (d, none) payload = record { track = d; effects = []; success = false }
  write_prepared (d, some hdr) payload =
      let counted = record d {
        rtp_stats = (update d.rtp_stats (stats_header p hdr) (length payload) 0 now now).0;
      } in
      if writes hdr payload
      then record { track = counted; effects = written hdr payload ∷ []; success = true }
      else record { track = d; effects = []; success = false }

  -- `writeSimpleRTP` behind the sync branch.
  unfoldable pub forward : DownTrack J → RtpPacket → Outcome J
  forward d pkt =
      let new_sn = sub16 pkt.header.sequence_number d.sn_offset in
      let new_ts = sub32 pkt.header.timestamp d.ts_offset in
      let pushed = record d {
        sequencer = push_to d.sequencer pkt.header.sequence_number new_sn new_ts;
      } in
      write_prepared
        (prepare_rtp_header_for_forwarding p (note_first pushed new_sn new_ts) pkt.header new_ts
          new_sn now)
        pkt.payload

  unfoldable pub write_simple_rtp : DownTrack J → ExtPacket → Outcome J
  write_simple_rtp d ext =
      if d.sync_required
      then if needs_key_frame d.kind ext
        then record { track = d; effects = pli_call true ∷ []; success = true }
        else forward (sync d ext.packet) ext.packet
      else forward d ext.packet

  unfoldable pub write_rtp : DownTrack J → ExtPacket → Outcome J
  write_rtp d ext = if not d.enabled || not d.bound then quiet d else write_simple_rtp d ext
