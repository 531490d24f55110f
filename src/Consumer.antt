-- ===== src/Consumer.antt =====
-- pkg/rtc/consumer.go: a consumer, which hands the packets of a producer to its down track.
use go_ortc.Base.{ℕ, Bool, true, false, List, [], if◌then◌else◌}
use go_ortc.Rtp.{RtpHeader, Pion}
use go_ortc.RtpStats.Types.{Float64}
use go_ortc.DownTrack.Types.{DownTrack, CodecType, ExtPacket, Effect, Outcome}
use go_ortc.DownTrack.Forward.{write_rtp}

-- The state. Of the producer, the consumer reads the id only, which never changes. `on_rtp_packet_handler`
-- is whether the handler is set.
pub record Consumer (J : Type 0) : Type 0 where
  pub id : ℕ
  pub producer_id : ℕ
  pub closed : Bool
  pub paused : Bool
  pub kind : CodecType
  pub available_bitrate : ℕ
  pub track : DownTrack J
  pub on_rtp_packet_handler : Bool

-- What `Write` does: the calls of the track, whether the handler is called, and whether no error is
-- returned.
pub record Written (J : Type 0) : Type 0 where
  pub consumer : Consumer J
  pub effects : List Effect
  pub handed_on : Bool
  pub success : Bool

module _ {J : Type 0} where
  -- `pause` and `resume` are compare-and-swap.
  abbrev pub pause : Consumer J → Consumer J
  pause c = if c.paused then c else record c { paused = true }

  abbrev pub resume : Consumer J → Consumer J
  resume c = if c.paused then record c { paused = false } else c

  -- The second result is whether the channel is closed by this call.
  abbrev pub close_consumer : Consumer J → Consumer J × Bool
  close_consumer c = if c.closed then (c, false) else (record c { closed = true }, true)

  abbrev pub handle_remb : Consumer J → (bitrate : ℕ) → Consumer J
  handle_remb c bitrate = record c { available_bitrate = bitrate }

module _ {J : Type 0} ⦃f : Float64 J⦄ (p : Pion) (writes : RtpHeader → List ℕ → Bool)
    (now : ℕ) where
  abbrev pub write_track : Consumer J → Outcome J → Written J
  write_track c o = record {
    consumer = record c { track = o.track };
    effects = o.effects;
    handed_on = if o.success then c.on_rtp_packet_handler else false;
    success = o.success;
  }

  unfoldable pub write : Consumer J → ExtPacket → Written J
  write c ext =
      if c.paused
      then record { consumer = c; effects = []; handed_on = false; success = true }
      else write_track c (write_rtp p writes now c.track ext)
