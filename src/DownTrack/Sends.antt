-- ===== src/DownTrack/Sends.antt =====
-- What pkg/rtc/downtrack.go writes for a run of packets.
use go_ortc.Base.{
  ℕ, ◌≡◌, refl, sym, ap, ◌∙◌, subst, Bool, true, false, Option, none, some, List, [], ◌∷◌, if_both,
}
use go_ortc.Base.Words.{sub16, sub32}
use go_ortc.Rtp.{RtpHeader, RtpPacket, Pion}
use go_ortc.RtpStats.Types.{Float64}
use go_ortc.DownTrack.Types.{DownTrack, CodecType, ExtPacket, Effect, written, Outcome}
use go_ortc.DownTrack.Forward.{
  prepare_rtp_header_for_forwarding, push_to, note_first, write_prepared, forward, write_simple_rtp,
  write_rtp,
}
use go_ortc.DownTrack.Numbers.{
  Extras, extras, SameNumbers, SetsExtensions, Refusal, Numbered, prepare-Numbered,
}

-- The fields that decide what is written for a packet.
pub record Config : Type 0 where
  pub bound : Bool
  pub enabled : Bool
  pub sync_required : Bool
  pub kind : CodecType
  pub extras : Extras
  pub ssrc : ℕ
  pub payload_type : ℕ
  pub sn_offset : ℕ
  pub ts_offset : ℕ

abbrev pub config : {J : Type 0} → DownTrack J → Config
config d = record {
  bound = d.bound;
  enabled = d.enabled;
  sync_required = d.sync_required;
  kind = d.kind;
  extras = extras d;
  ssrc = d.ssrc;
  payload_type = d.payload_type;
  sn_offset = d.sn_offset;
  ts_offset = d.ts_offset;
}

-- The header of a packet with the peer's ssrc and payload type, moved by the offsets.
abbrev pub renumbered : Config → RtpHeader → RtpHeader
renumbered c h = record h {
  payload_type = c.payload_type;
  ssrc = c.ssrc;
  sequence_number = sub16 h.sequence_number c.sn_offset;
  timestamp = sub32 h.timestamp c.ts_offset;
}

-- The payload under these numbers, if the stream takes it; nothing where the stream refuses it or the
-- header cannot be prepared.
pub data Sends (p : Pion) (x : Extras) (writes : RtpHeader → List ℕ → Bool) (base : RtpHeader)
    (payload : List ℕ) : List Effect → Type 0 where
  unprepared : Refusal p x base → Sends p x writes base payload []
  refused :
      {h : RtpHeader}
      → SameNumbers base h
      → writes h payload ≡ false
      → Sends p x writes base payload []
  sent :
      {h : RtpHeader}
      → SameNumbers base h
      → writes h payload ≡ true
      → Sends p x writes base payload (written h payload ∷ [])

-- The packet itself, renumbered as the fields say.
abbrev pub SendsBy : Pion → (RtpHeader → List ℕ → Bool) → Config → RtpPacket → List Effect → Type 0
SendsBy p writes c pkt effects =
    Sends p c.extras writes (renumbered c pkt.header) pkt.payload effects

module _ {J : Type 0} ⦃f : Float64 J⦄ (p : Pion) (law : SetsExtensions p)
    (writes : RtpHeader → List ℕ → Bool) (now : ℕ) where
  write_prepared-Sends :
      (x : Extras) (base : RtpHeader) (payload : List ℕ) (d : DownTrack J) (o : Option RtpHeader)
      → Numbered p x base o
      → Sends p x writes base payload (write_prepared p writes now (d, o) payload).effects
  write_prepared-Sends x base payload d none n = unprepared n
  write_prepared-Sends x base payload d (some h) n =
      if_both (λ (t : Outcome J). Sends p x writes base payload t.effects) (writes h payload)
        (λ e. sent n e) (λ e. refused n e)

  write_prepared-config :
      (d : DownTrack J) (o : Option RtpHeader) (payload : List ℕ)
      → config (write_prepared p writes now (d, o) payload).track ≡ config d
  write_prepared-config d none payload = refl
  write_prepared-config d (some h) payload =
      if_both (λ (t : Outcome J). config t.track ≡ config d) (writes h payload) (λ _. refl)
        (λ _. refl)

  note_first-config : (d : DownTrack J) (sn ts : ℕ) → config (note_first d sn ts) ≡ config d
  note_first-config d sn ts =
      if_both (λ (t : DownTrack J). config t ≡ config d) d.started (λ _. refl) (λ _. refl)

  pub forward-SendsBy :
      (d : DownTrack J) (pkt : RtpPacket)
      → SendsBy p writes (config d) pkt (forward p writes now d pkt).effects
  unfolding forward
  forward-SendsBy d pkt =
      let c = config d in
      let sn = sub16 pkt.header.sequence_number d.sn_offset in
      let ts = sub32 pkt.header.timestamp d.ts_offset in
      let pushed = record d { sequencer = push_to d.sequencer pkt.header.sequence_number sn ts } in
      let t = note_first pushed sn ts in
      let same = note_first-config pushed sn ts in
      let base : Config → RtpHeader =
        λ k. record (renumbered c pkt.header) { payload_type = k.payload_type; ssrc = k.ssrc } in
      let prepared = prepare_rtp_header_for_forwarding p t pkt.header ts sn now in
      write_prepared-Sends (extras d) (renumbered c pkt.header) pkt.payload prepared.0 prepared.1 (
        subst (λ (k : Config). Numbered p k.extras (base k) prepared.1) same
          (prepare-Numbered p law t pkt.header ts sn now))

  pub forward-config :
      (d : DownTrack J) (pkt : RtpPacket) → config (forward p writes now d pkt).track ≡ config d
  unfolding forward prepare_rtp_header_for_forwarding
  forward-config d pkt =
      let sn = sub16 pkt.header.sequence_number d.sn_offset in
      let ts = sub32 pkt.header.timestamp d.ts_offset in
      let pushed = record d { sequencer = push_to d.sequencer pkt.header.sequence_number sn ts } in
      write_prepared-config _
        (prepare_rtp_header_for_forwarding p (note_first pushed sn ts) pkt.header ts sn now).1
        pkt.payload
      ∙ note_first-config pushed sn ts

  -- Each packet of a run, from the state that the packets before it left.
  abbrev pub RunSends : Config → DownTrack J → List ExtPacket → Type 0
  RunSends c d [] = Unit {0}
  RunSends c d (ext ∷ exts) =
      SendsBy p writes c ext.packet (write_rtp p writes now d ext).effects
      × RunSends c (write_rtp p writes now d ext).track exts

  write_rtp-synced :
      (d : DownTrack J) (ext : ExtPacket)
      → d.enabled ≡ true
      → d.bound ≡ true
      → d.sync_required ≡ false
      → write_rtp p writes now d ext ≡ forward p writes now d ext.packet
  unfolding write_rtp write_simple_rtp
  write_rtp-synced d ext on up synced = simp (on, up, synced)

  run-RunSends :
      (c : Config) (d : DownTrack J) (exts : List ExtPacket)
      → config d ≡ c
      → c.enabled ≡ true
      → c.bound ≡ true
      → c.sync_required ≡ false
      → RunSends c d exts
  run-RunSends c d [] same on up synced = tt
  run-RunSends c d (ext ∷ exts) same on up synced =
      let step =
        write_rtp-synced d ext (ap (λ (k : Config). k.enabled) same ∙ on)
          (ap (λ (k : Config). k.bound) same ∙ up)
          (ap (λ (k : Config). k.sync_required) same ∙ synced) in
      (
        subst (λ (t : Outcome J). SendsBy p writes c ext.packet t.effects) (sym step)
            (subst
              (λ (k : Config).
                SendsBy p writes k ext.packet (forward p writes now d ext.packet).effects)
              same (forward-SendsBy d ext.packet)),
        run-RunSends c (write_rtp p writes now d ext).track exts
            (ap (λ (t : Outcome J). config t.track) step ∙ forward-config d ext.packet ∙ same) on up
            synced,
      )

  -- While a track is bound, enabled and in sync, each packet of a run is written exactly once, with
  -- its own payload and marker, under the peer's ssrc and payload type, and all sequence numbers and
  -- timestamps of the run are moved by the same two offsets. A packet is left out only where the
  -- peer's stream refuses this packet, or where one of the track's enabled extensions cannot be set
  -- in this packet's header after the ones before it: pion refuses its id and value, or it is a mid of
  -- more than 8 bytes.
  pub write_rtp-RunSends :
      (d : DownTrack J) (exts : List ExtPacket)
      → d.enabled ≡ true
      → d.bound ≡ true
      → d.sync_required ≡ false
      → RunSends (config d) d exts
  write_rtp-RunSends d exts on up synced = run-RunSends (config d) d exts refl on up synced
