-- ===== src/DownTrack/Resync.antt =====
-- The packet with which pkg/rtc/downtrack.go resumes after it was muted or bound again.
use go_ortc.Base.{
  ℕ, ◌<◌, ◌≡◌, ◌≢◌, refl, sym, ap, ◌∙◌, subst, Bool, true, false, List, ◌==◌, if◌then◌else◌,
  if_both, arith,
}
use go_ortc.Base.Words.{sub16, add16, add32, sub32, IsU16, IsU32}
use go_ortc.Rtp.{RtpHeader, RtpPacket, Pion}
use go_ortc.RtpStats.Types.{Float64}
use go_ortc.DownTrack.Types.{DownTrack, ExtPacket, Outcome}
use go_ortc.DownTrack.Forward.{
  prepare_rtp_header_for_forwarding, push_to, note_first, needs_key_frame, sync, forward,
  write_simple_rtp, write_rtp,
}
use go_ortc.DownTrack.Numbers.{Extras, extras, SetsExtensions}
use go_ortc.DownTrack.Sends.{config, renumbered, Sends, forward-SendsBy}
use go_ortc.DownTrack.Events.{Event, handle_all}
use go_ortc.DownTrack.Anchor.{Anchor, anchor, write_prepared-anchor, handle_all-anchor}

-- A track that is about to take up a packet again.
pub record Resumes {J : Type 0} (d : DownTrack J) (ext : ExtPacket) : Type 0 where
  pub bound : d.bound ≡ true
  pub enabled : d.enabled ≡ true
  pub sync_required : d.sync_required ≡ true
  pub key_frame : needs_key_frame d.kind ext ≡ false

-- The header of a packet, under the numbers that follow a sequence number and a timestamp.
abbrev pub following : {J : Type 0} → DownTrack J → RtpHeader → (sn ts : ℕ) → RtpHeader
following d h sn ts = record (renumbered (config d) h) {
  sequence_number = add16 sn 1;
  timestamp = add32 ts 1;
}

module _ {J : Type 0} ⦃f : Float64 J⦄ (p : Pion) (law : SetsExtensions p)
    (writes : RtpHeader → List ℕ → Bool) (now : ℕ) where
  write_rtp-Resumes :
      (d : DownTrack J) (ext : ExtPacket)
      → Resumes d ext
      → write_rtp p writes now d ext ≡ forward p writes now (sync d ext.packet) ext.packet
  unfolding write_rtp write_simple_rtp
  write_rtp-Resumes d ext r = simp (r.enabled, r.bound, r.sync_required, r.key_frame)

  sync-extras : (d : DownTrack J) (pkt : RtpPacket) → extras (sync d pkt) ≡ extras d
  unfolding sync
  sync-extras d pkt =
      if_both (λ (t : DownTrack J). extras t ≡ extras d) (d.last_sn == 0) (λ _. refl) (λ _. refl)

  renumbered-sync :
      (d : DownTrack J) (pkt : RtpPacket)
      → d.last_sn ≢ 0
      → d.last_sn < 65536
      → d.last_ts < 4294967296
      → IsU16 pkt.header.sequence_number
      → IsU32 pkt.header.timestamp
      → renumbered (config (sync d pkt)) pkt.header ≡ following d pkt.header d.last_sn d.last_ts
  unfolding sync
  renumbered-sync d pkt ne last_u16 last_u32 sn_u16 ts_u32 =
      let other : (d.last_sn == 0) ≡ false = ground arith in
      let h = pkt.header in
      let sn : sub16 h.sequence_number (sub16 (sub16 h.sequence_number d.last_sn) 1)
          ≡ add16 d.last_sn 1 =
        omega arith in
      let ts : sub32 h.timestamp (sub32 (sub32 h.timestamp d.last_ts) 1) ≡ add32 d.last_ts 1 =
        omega arith in
      simp other (λ i. record (following d h d.last_sn d.last_ts) {
        sequence_number = sn i;
        timestamp = ts i;
      })

  write_rtp-sync :
      (d : DownTrack J) (ext : ExtPacket)
      → Resumes d ext
      → d.last_sn ≢ 0
      → d.last_sn < 65536
      → d.last_ts < 4294967296
      → IsU16 ext.packet.header.sequence_number
      → IsU32 ext.packet.header.timestamp
      → Sends p
          (extras d)
          writes
          (following d ext.packet.header d.last_sn d.last_ts)
          ext.packet.payload
          (write_rtp p writes now d ext).effects
  write_rtp-sync d ext r ne last_u16 last_u32 sn_u16 ts_u32 =
      let pkt = ext.packet in
      subst
        (λ (t : Outcome J).
          Sends p (extras d) writes (following d pkt.header d.last_sn d.last_ts) pkt.payload
            t.effects)
        (sym (write_rtp-Resumes d ext r))
        (subst
          (λ (h : RtpHeader).
            Sends p (extras d) writes h pkt.payload (forward p writes now (sync d pkt) pkt).effects)
          (renumbered-sync d pkt ne last_u16 last_u32 sn_u16 ts_u32)
          (subst
            (λ (m : Extras).
              Sends p m writes (renumbered (config (sync d pkt)) pkt.header) pkt.payload
                (forward p writes now (sync d pkt) pkt).effects)
            (sync-extras d pkt) (forward-SendsBy p law writes now (sync d pkt) pkt)))

-- The number and the timestamp under which a track forwards a packet.
abbrev pub sent_sn : {J : Type 0} → DownTrack J → RtpPacket → ℕ
sent_sn d pkt = sub16 pkt.header.sequence_number d.sn_offset

abbrev pub sent_ts : {J : Type 0} → DownTrack J → RtpPacket → ℕ
sent_ts d pkt = sub32 pkt.header.timestamp d.ts_offset

module _ {J : Type 0} ⦃f : Float64 J⦄ (p : Pion) where
  forward-first :
      (writes : RtpHeader → List ℕ → Bool) (now : ℕ) (d : DownTrack J) (pkt : RtpPacket)
      → d.started ≡ false
      → anchor (forward p writes now d pkt).track
        ≡ record { started = true; last_sn = sent_sn d pkt; last_ts = sent_ts d pkt }
  unfolding forward prepare_rtp_header_for_forwarding
  forward-first writes now d pkt fresh =
      let pushed = record d {
        sequencer = push_to d.sequencer pkt.header.sequence_number (sent_sn d pkt) (sent_ts d pkt);
      } in
      write_prepared-anchor p writes now _
        (prepare_rtp_header_for_forwarding p (note_first pushed (sent_sn d pkt) (sent_ts d pkt))
          pkt.header (sent_ts d pkt) (sent_sn d pkt) now).1
        pkt.payload
      ∙ ap
          (λ b. anchor (
            if b then pushed else record pushed {
              last_sn = sent_sn d pkt;
              last_ts = sent_ts d pkt;
              started = true;
            }))
          fresh

  -- Where a track resumes, after it was muted or bound again, it takes up the numbers of the very
  -- first packet that it forwarded, if that was not number 0: whatever packets, NACKs, RTCP and other
  -- calls came in between, the packet is written under the sequence number and the timestamp that
  -- follow those of the first one (or left out, for a refusal of the stream or of the header), so
  -- numbers that the peer has are used again.
  pub write_rtp-rewinds :
      (law : SetsExtensions p) (d : DownTrack J) (first : RtpPacket)
      (writes : RtpHeader → List ℕ → Bool) (now : ℕ) (es : List Event) (ext : ExtPacket)
      (writes' : RtpHeader → List ℕ → Bool) (later : ℕ)
      → d.started ≡ false
      → sent_sn d first ≢ 0
      → Resumes (handle_all p es (forward p writes now d first).track) ext
      → IsU16 ext.packet.header.sequence_number
      → IsU32 ext.packet.header.timestamp
      → let d' = handle_all p es (forward p writes now d first).track in
        Sends p
          (extras d')
          writes'
          (following d' ext.packet.header (sent_sn d first) (sent_ts d first))
          ext.packet.payload
          (write_rtp p writes' later d' ext).effects
  write_rtp-rewinds law d first writes now es ext writes' later fresh ne r sn_u16 ts_u32 =
      let d1 = (forward p writes now d first).track in
      let d' = handle_all p es d1 in
      let begun = forward-first writes now d first fresh in
      let same : anchor d'
          ≡ record { started = true; last_sn = sent_sn d first; last_ts = sent_ts d first } =
        handle_all-anchor p es d1 (ap (λ (a : Anchor). a.started) begun) ∙ begun in
      let at_sn : d'.last_sn ≡ sent_sn d first = ap (λ (a : Anchor). a.last_sn) same in
      let at_ts : d'.last_ts ≡ sent_ts d first = ap (λ (a : Anchor). a.last_ts) same in
      let h = ext.packet.header in
      subst
        (λ (b : RtpHeader).
          Sends p (extras d') writes' b ext.packet.payload
            (write_rtp p writes' later d' ext).effects)
        (λ i. following d' h (at_sn i) (at_ts i))
        (write_rtp-sync p law writes' later d' ext r (λ e. ne (sym at_sn ∙ e))
          (omega (arith, at_sn)) (omega (arith, at_ts)) sn_u16 ts_u32)
