-- ===== src/DownTrack/Events.antt =====
-- The calls of the methods of pkg/rtc/downtrack.go as events, and what all of them leave alone.
use go_ortc.Base.{ℕ, Bool, Option, List, [], ◌∷◌}
use go_ortc.Rtp.{RtpHeader, Pion}
use go_ortc.RtpStats.Types.{Float64, ReceptionReport}
use go_ortc.Codecs.{CodecParameters}
use go_ortc.DownTrack.Types.{DownTrack, ExtPacket, Outcome}
use go_ortc.DownTrack.Forward.{write_rtp}
use go_ortc.DownTrack.Retransmit.{Read, retransmit_packets}
use go_ortc.DownTrack.Feedback.{Rtcp, handle_rtcp}
use go_ortc.DownTrack.Lifecycle.{TrackLocalContext, bind, unbind, mute, close}

-- A call of a method, with its arguments and what the world answers it.
pub data Event : Type 0 where
  packet_in : ExtPacket → (writes : RtpHeader → List ℕ → Bool) (now : ℕ) → Event
  resend :
      (nacks : List ℕ) (writes : RtpHeader → List ℕ → Bool) (read_rtp : ℕ → Read) (now : ℕ) → Event
  rtcp_in : Option (List Rtcp) → (measured : ReceptionReport → ℕ × Bool) (now : ℕ) → Event
  bound_to : (needle : CodecParameters) → TrackLocalContext → (now : ℕ) → Event
  unbound : Event
  muted : (val : Bool) → Event
  closed : (now : ℕ) → Event

module _ {J : Type 0} ⦃f : Float64 J⦄ (p : Pion) where
  unfoldable pub handle : Event → DownTrack J → Outcome J
  handle (packet_in ext writes now) d = write_rtp p writes now d ext
  handle (resend nacks writes read_rtp now) d = retransmit_packets p writes read_rtp now d nacks
  handle (rtcp_in pkts measured now) d = handle_rtcp measured now d pkts
  handle (bound_to needle t now) d = bind d needle t now
  handle unbound d = unbind d
  handle (muted val) d = mute d val
  handle (closed now) d = close d now

  unfoldable pub handle_all : List Event → DownTrack J → DownTrack J
  handle_all [] d = d
  handle_all (e ∷ es) d = handle_all es (handle e d).track
