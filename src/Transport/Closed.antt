-- ===== src/Transport/Closed.antt =====
-- Packets after `Close` of pkg/rtc/webrtc_transport.go and of pkg/rtc/router.go.
use go_ortc.Base.{ℕ, zero, suc, ◌≡◌, refl, Bool, false, none, some, List, [], ◌∷◌, All, true}
use go_ortc.Rtp.{RtpHeader, Pion}
use go_ortc.RtpStats.Types.{Float64}
use go_ortc.DownTrack.Types.{ExtPacket}
use go_ortc.Router.{Map, on_rtp_packet}
use go_ortc.Consumer.{Consumer, close_consumer}
use go_ortc.Transport.Types.{Store, Transport}
use go_ortc.Transport.Close.{modify, modify_all, close_router}

-- The consumer at a pointer is closed.
abbrev pub ClosedAt : {J : Type 0} → List (Consumer J) → (ptr : ℕ) → Type 0
ClosedAt [] k = Unit {0}
ClosedAt (c ∷ cs) zero = c.closed ≡ true
ClosedAt (c ∷ cs) (suc k) = ClosedAt cs k

-- All consumers of a map are closed.
abbrev pub AllClosed : {J : Type 0} → Map ℕ → List (Consumer J) → Type 0
AllClosed none heap = Unit {0}
AllClosed (some m) heap = All (λ (e : ℕ × ℕ). ClosedAt heap e.1) m

module _ {J : Type 0} where
  abbrev closing : ℕ → List (Consumer J) → List (Consumer J)
  closing k heap = modify (λ (c : Consumer J). (close_consumer c).0) k heap

  abbrev closing_all : List (ℕ × ℕ) → List (Consumer J) → List (Consumer J)
  closing_all m heap = modify_all (λ (c : Consumer J). (close_consumer c).0) m heap

module _ {J : Type 0} ⦃f : Float64 J⦄ (p : Pion) (writes : ℕ → RtpHeader → List ℕ → Bool) (now : ℕ)
    (ext : ExtPacket) where
  -- Closing a router that is not closed yet ends the forwarding: no packet of any producer leads to a
  -- call or changes a consumer. Closing it again changes nothing.
  pub close_router-silent :
      (s : Store J) (ts : List Transport) (producer_id : ℕ) (heap : List (Consumer J))
      → s.router.closed ≡ false
      → let (s', ts') = close_router s ts in
        (on_rtp_packet p writes now s'.router producer_id ext heap ≡ (heap, []))
        × (close_router s' ts' ≡ (s', ts'))
  unfolding close_router on_rtp_packet
  close_router-silent s ts producer_id heap closed = rw (closed, close_router) (refl, refl)
