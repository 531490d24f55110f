-- ===== src/Producer.antt =====
-- pkg/rtc/producer.go: a producer, which hands the packets of a peer to the router.
use go_ortc.Base.{
  ℕ, Bool, true, false, ◌&&◌, ◌||◌, not, Option, none, some, List, [], ◌∷◌, if◌then◌else◌,
}
use go_ortc.Codecs.{CodecParameters}
use go_ortc.DownTrack.Types.{CodecType, ExtPacket}

-- The state. `codec` is the codec of the remote track; the handlers are their presence.
pub record Producer : Type 0 where
  pub id : ℕ
  pub closed : Bool
  pub paused : Bool
  pub kind : CodecType
  pub codec : CodecParameters
  pub has_buffer : Bool
  pub on_rtp_packet_handler : Bool
  pub on_rtcp_packet : Bool
  pub on_close_handler : Bool

abbrev pub new_producer : (id : ℕ) → CodecType → CodecParameters → Producer
new_producer id kind codec = record {
  id = id;
  closed = false;
  paused = false;
  kind = kind;
  codec = codec;
  has_buffer = false;
  on_rtp_packet_handler = false;
  on_rtcp_packet = false;
  on_close_handler = false;
}

-- The second result is whether the receiver is stopped by this call, and the third whether the close
-- handler is called.
abbrev pub close_producer : Producer → Producer × (Bool × Bool)
close_producer p =
    if p.closed
    then (p, (false, false))
    else (record p { closed = true }, (true, p.on_close_handler))

abbrev pub pause_producer : Producer → (value : Bool) → Producer
pause_producer p value = if p.closed then p else record p { paused = value }

-- Whether `SendRTCP` writes to the transport; `has_packets` is whether the slice is not nil.
abbrev pub sends_rtcp : Producer → (has_packets : Bool) → Bool
sends_rtcp p has_packets = if not has_packets || p.closed then false else true

-- A round of the worker: what happened to the producer from outside before it, and what the buffer
-- returns, `none` for an error.
pub data Round : Type 0 where
  paused_to : (value : Bool) → Round
  closed_by_other : Round
  read_result : Option ExtPacket → Round

-- The packets that `readRTPWorker` hands to the handler, and the producer that is left.
unfoldable pub read_rtp_worker : Producer → List Round → Producer × List ExtPacket
read_rtp_worker p [] = (p, [])
read_rtp_worker p (paused_to value ∷ rounds) = read_rtp_worker (pause_producer p value) rounds
read_rtp_worker p (closed_by_other ∷ rounds) = ((close_producer p).0, [])
read_rtp_worker p (read_result none ∷ rounds) = ((close_producer p).0, [])
read_rtp_worker p (read_result (some ext) ∷ rounds) =
    let (p', out) = read_rtp_worker p rounds in
    (p', if p.on_rtp_packet_handler && not p.paused then ext ∷ out else out)
