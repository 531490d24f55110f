-- ===== src/DownTrack/Anchor.antt =====
-- The methods of pkg/rtc/downtrack.go leave the numbers of the first packet alone.
use go_ortc.Base.{
  ℕ, ◌≡◌, refl, ap, ◌∙◌, Bool, true, ◌&&◌, ◌||◌, not, inl, inr, Option, none, some, List, [], ◌∷◌,
  ltb, ◌==◌, if◌then◌else◌, if_both,
}
use go_ortc.Base.Words.{sub16, sub32}
use go_ortc.Rtp.{RtpHeader, RtpPacket, Pion}
use go_ortc.RtpStats.Types.{Float64, ReceptionReport}
use go_ortc.Sequencer.{Sequencer, PacketMeta}
use go_ortc.Codecs.{CodecParameters}
use go_ortc.DownTrack.Types.{DownTrack, ExtPacket, Outcome}
use go_ortc.DownTrack.Forward.{
  prepare_rtp_header_for_forwarding, push_to, note_first, sync, needs_key_frame, write_prepared,
  forward, write_simple_rtp, write_rtp,
}
use go_ortc.DownTrack.Retransmit.{
  Read, Read-cases, missed, Resending, write_resent, resend_packet, repeated, acked, resend_loop,
  retransmit_of,
}
use go_ortc.DownTrack.Feedback.{
  Rtcp, picture_loss, full_intra_request, remb, receiver_report, transport_nack, transport_cc,
  other_rtcp, Handling, send_pli_once, take_reception, take_reports, handle_packet, handle_packets,
  begin_handling, handle_rtcp,
}
use go_ortc.DownTrack.Lifecycle.{TrackLocalContext, bind_codec, bind, mute, close}
use go_ortc.DownTrack.Events.{
  Event, packet_in, resend, rtcp_in, bound_to, unbound, muted, closed, handle, handle_all,
}

-- What the first packet fixes.
pub record Anchor : Type 0 where
  pub started : Bool
  pub last_sn : ℕ
  pub last_ts : ℕ

abbrev pub anchor : {J : Type 0} → DownTrack J → Anchor
anchor d = record { started = d.started; last_sn = d.last_sn; last_ts = d.last_ts }

module _ {J : Type 0} ⦃f : Float64 J⦄ (p : Pion) where
  -- A track with the anchor of another.
  abbrev pub Same : DownTrack J → DownTrack J → Type 0
  Same d t = anchor t ≡ anchor d

  note_first-anchor : (d : DownTrack J) (sn ts : ℕ) → d.started ≡ true → Same d (note_first d sn ts)
  note_first-anchor d sn ts begun =
      ap (λ b. anchor (if b then d else record d { last_sn = sn; last_ts = ts; started = true }))
        begun

  pub write_prepared-anchor :
      (writes : RtpHeader → List ℕ → Bool) (now : ℕ) (d : DownTrack J) (o : Option RtpHeader)
      (payload : List ℕ)
      → Same d (write_prepared p writes now (d, o) payload).track
  write_prepared-anchor writes now d none payload = refl
  write_prepared-anchor writes now d (some h) payload =
      if_both (λ (t : Outcome J). Same d t.track) (writes h payload) (λ _. refl) (λ _. refl)

  forward-anchor :
      (writes : RtpHeader → List ℕ → Bool) (now : ℕ) (d : DownTrack J) (pkt : RtpPacket)
      → d.started ≡ true
      → Same d (forward p writes now d pkt).track
  unfolding forward prepare_rtp_header_for_forwarding
  forward-anchor writes now d pkt begun =
      let sn = sub16 pkt.header.sequence_number d.sn_offset in
      let ts = sub32 pkt.header.timestamp d.ts_offset in
      let pushed = record d { sequencer = push_to d.sequencer pkt.header.sequence_number sn ts } in
      write_prepared-anchor writes now _
        (prepare_rtp_header_for_forwarding p (note_first pushed sn ts) pkt.header ts sn now).1
        pkt.payload
      ∙ note_first-anchor pushed sn ts begun

  sync-anchor : (d : DownTrack J) (pkt : RtpPacket) → Same d (sync d pkt)
  unfolding sync
  sync-anchor d pkt = if_both (Same d) (d.last_sn == 0) (λ _. refl) (λ _. refl)

  write_rtp-anchor :
      (writes : RtpHeader → List ℕ → Bool) (now : ℕ) (d : DownTrack J) (ext : ExtPacket)
      → d.started ≡ true
      → Same d (write_rtp p writes now d ext).track
  unfolding write_rtp write_simple_rtp
  write_rtp-anchor writes now d ext begun =
      let Q : Outcome J → Type 0 = λ t. Same d t.track in
      if_both Q (not d.enabled || not d.bound) (λ _. refl)
        λ _.
          if_both Q d.sync_required
            (λ _.
              if_both Q (needs_key_frame d.kind ext) (λ _. refl)
                (λ _.
                  forward-anchor writes now (sync d ext.packet) ext.packet
                    (ap (λ (a : Anchor). a.started) (sync-anchor d ext.packet) ∙ begun)
                  ∙ sync-anchor d ext.packet))
            (λ _. forward-anchor writes now d ext.packet begun)

  module _ (writes : RtpHeader → List ℕ → Bool) (read_rtp : ℕ → Read) (now : ℕ) where
    write_resent-anchor :
        (l : Resending J) (d : DownTrack J) (o : Option RtpHeader) (payload : List ℕ)
        → Same d (write_resent p writes read_rtp now l (d, o) payload).track
    write_resent-anchor l d none payload = refl
    write_resent-anchor l d (some h) payload =
        if_both (λ (t : Resending J). Same d t.track) (writes h payload) (λ _. refl) (λ _. refl)

    resend_packet-anchor :
        (l : Resending J) (meta : PacketMeta) (o : Option RtpPacket)
        → Same l.track (resend_packet p writes read_rtp now l meta o).track
    unfolding prepare_rtp_header_for_forwarding
    resend_packet-anchor l meta none = refl
    resend_packet-anchor l meta (some pkt) =
        write_resent-anchor l _
          (prepare_rtp_header_for_forwarding p l.track pkt.header meta.timestamp meta.target_seq_no
            now).1
          pkt.payload

    repeated-anchor :
        (l : Resending J) (meta : PacketMeta)
        → Same l.track (repeated p writes read_rtp now l meta).track
    repeated-anchor l meta =
        if_both (λ (t : Resending J). Same l.track t.track) (ltb 1 meta.nacked) (λ _. refl)
          (λ _. refl)

    resend_loop-anchor :
        (metas : List PacketMeta) (l : Resending J)
        → Same l.track (resend_loop p writes read_rtp now l metas).track
    unfolding resend_loop
    resend_loop-anchor [] l = refl
    resend_loop-anchor (meta ∷ metas) l = elim (Read-cases (read_rtp meta.source_seq_no)) [
      | inl (inl e) ↦ rw (e, resend_loop) refl
      | inl (inr e) ↦
          rw (e, resend_loop)
            (resend_loop-anchor metas
              (missed p writes read_rtp now (acked p writes read_rtp now l)))
      | inr (b, e) ↦
          let a = repeated p writes read_rtp now (acked p writes read_rtp now l) meta in
          rw (e, resend_loop)
            (resend_loop-anchor metas
                (resend_packet p writes read_rtp now a meta (p.unmarshal_packet b))
              ∙ resend_packet-anchor a meta (p.unmarshal_packet b)
              ∙ repeated-anchor (acked p writes read_rtp now l) meta)
    ]

    retransmit_of-anchor :
        (d : DownTrack J) (nacks : List ℕ) (o : Option Sequencer)
        → Same d (retransmit_of p writes read_rtp now d nacks o).track
    unfolding retransmit_of
    retransmit_of-anchor d nacks none = refl
    retransmit_of-anchor d nacks (some s) = resend_loop-anchor _ _

  module _ (measured : ReceptionReport → ℕ × Bool) (now : ℕ) where
    send_pli_once-anchor : (l : Handling J) → Same l.track (send_pli_once measured now l).track
    unfolding send_pli_once
    send_pli_once-anchor l =
        if_both (λ (t : Handling J). Same l.track t.track) (l.pli_once && l.track.enabled)
          (λ _. refl) (λ _. refl)

    take_reports-anchor :
        (rs : List ReceptionReport) (l : Handling J)
        → Same l.track (take_reports measured now l rs).track
    unfolding take_reports
    take_reports-anchor [] l = refl
    take_reports-anchor (r ∷ rs) l =
        take_reports-anchor rs (take_reception measured now l r)
        ∙ if_both (λ (t : Handling J). Same l.track t.track) (r.ssrc == l.track.ssrc) (λ _. refl)
            (λ _. refl)

    handle_packet-anchor :
        (l : Handling J) (pkt : Rtcp) → Same l.track (handle_packet measured now l pkt).track
    unfolding handle_packet
    handle_packet-anchor l picture_loss = send_pli_once-anchor _
    handle_packet-anchor l full_intra_request = send_pli_once-anchor _
    handle_packet-anchor l (remb bitrate) =
        if_both (λ (t : Handling J). Same l.track t.track) l.track.on_remb_feedback (λ _. refl)
          (λ _. refl)
    handle_packet-anchor l (receiver_report reports) = take_reports-anchor reports l
    handle_packet-anchor l (transport_nack pairs) = refl
    handle_packet-anchor l (transport_cc media_ssrc) =
        if_both (λ (t : Handling J). Same l.track t.track)
          (media_ssrc == l.track.ssrc && l.track.on_transport_cc_feedback) (λ _. refl) (λ _. refl)
    handle_packet-anchor l other_rtcp = refl

    handle_packets-anchor :
        (pkts : List Rtcp) (l : Handling J)
        → Same l.track (handle_packets measured now l pkts).track
    unfolding handle_packets
    handle_packets-anchor [] l = refl
    handle_packets-anchor (pkt ∷ pkts) l =
        handle_packets-anchor pkts (handle_packet measured now l pkt) ∙ handle_packet-anchor l pkt

    handle_rtcp-anchor :
        (d : DownTrack J) (o : Option (List Rtcp)) → Same d (handle_rtcp measured now d o).track
    unfolding handle_rtcp
    handle_rtcp-anchor d none = refl
    handle_rtcp-anchor d (some pkts) = handle_packets-anchor pkts (begin_handling measured now d)

  bind_codec-anchor :
      (d : DownTrack J) (t : TrackLocalContext) (now : ℕ) (o : Option CodecParameters)
      → Same d (bind_codec d t now o).track
  unfolding bind_codec
  bind_codec-anchor d t now none = refl
  bind_codec-anchor d t now (some c) = refl

  handle-anchor : (e : Event) (d : DownTrack J) → d.started ≡ true → Same d (handle p e d).track
  unfolding handle bind mute close
  handle-anchor (packet_in ext writes now) d begun = write_rtp-anchor writes now d ext begun
  handle-anchor (resend nacks writes read_rtp now) d begun =
      retransmit_of-anchor writes read_rtp now d nacks d.sequencer
  handle-anchor (rtcp_in pkts measured now) d begun = handle_rtcp-anchor measured now d pkts
  handle-anchor (bound_to needle t now) d begun = bind_codec-anchor d t now _
  handle-anchor unbound d begun = refl
  handle-anchor (muted val) d begun =
      if_both (λ (t : Outcome J). Same d t.track) ((d.enabled && not val) || (not d.enabled && val))
        (λ _. refl) (λ _. refl)
  handle-anchor (closed now) d begun =
      if_both (λ (t : Outcome J). Same d t.track) (not d.bound) (λ _. refl) (λ _. refl)

  pub handle_all-anchor :
      (es : List Event) (d : DownTrack J) → d.started ≡ true → Same d (handle_all p es d)
  unfolding handle_all
  handle_all-anchor [] d begun = refl
  handle_all-anchor (e ∷ es) d begun =
      let step = handle-anchor e d begun in
      handle_all-anchor es (handle p e d).track (ap (λ (a : Anchor). a.started) step ∙ begun) ∙ step
